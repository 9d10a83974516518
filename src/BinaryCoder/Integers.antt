-- ===== src/BinaryCoder/Integers.antt =====
-- Integers that are packed and unpacked.
use nginz.Prelude.{
  ℕ, ◌+◌, ◌*◌, ◌/◌, ◌%◌, ◌≤◌, ◌<◌, ◌≡◌, refl, ◌∙◌, inl, inr, true, false, ◌&&◌, some, List, [], ◌∷◌,
  ◌++◌, arith, ltb, leb, if◌then◌else◌, Bool-cases, length, All,
}
use nginz.Xtring.{Xtring}
use nginz.BinaryCoder.{
  content_integer, int_bytes, int_of, int_result, binary_coder_reset, binary_unpack_int,
}
use nginz.BinaryCoder.Layout.{Field, encode_all, size, pack_all, IsFramed}
use nginz.BinaryCoder.Message.{unpack_framed, binary_unpack_string_helper-pack_all}

four_bytes :
    (w : ℕ)
    → w < 0x1_0000_0000
    → ((w / 0x100_0000 % 256 * 256 + w / 0x1_0000 % 256) * 256 + w / 256 % 256) * 256 + w % 256 ≡ w
four_bytes w h = omega arith

two_low : (w : ℕ) → w / 256 % 256 * 256 + w % 256 ≡ w % 0x1_0000
two_low w = omega arith

-- What is read back of a 32-bit pattern: itself when it is not negative, else its low 16 bits.
abbrev pub int_value : ℕ → ℕ
int_value w = if ltb w 0x8000_0000 then w else w % 0x1_0000

value_long : (w : ℕ) → (leb 0xffff w && ltb w 0x8000_0000) ≡ true → w ≡ int_value w
value_long w c = ground arith

value_short : (w : ℕ) → (leb 0xffff w && ltb w 0x8000_0000) ≡ false → w % 0x1_0000 ≡ int_value w
value_short w c = ground arith

module _ (X : Xtring) where
  open X use {Txt, bytes, capacity, memory, of_bytes}

  int_of-four :
      (x : Txt) (a b c d : ℕ)
      → bytes x ≡ a ∷ b ∷ c ∷ d ∷ []
      → int_of X x ≡ ((a * 256 + b) * 256 + c) * 256 + d
  unfolding int_of
  int_of-four x a b c d e =
      rw
        (
          X.memory_lem x 0 (rw e (omega arith)),
          X.memory_lem x 1 (rw e (omega arith)),
          X.memory_lem x 2 (rw e (omega arith)),
          X.memory_lem x 3 (rw e (omega arith)),
          e,
        )
        refl

  int_of-two : (x : Txt) (a b : ℕ) → bytes x ≡ a ∷ b ∷ [] → int_of X x ≡ a * 256 + b
  unfolding int_of
  int_of-two x a b e =
      rw (X.memory_lem x 0 (rw e (omega arith)), X.memory_lem x 1 (rw e (omega arith)), e) refl

  int_of-int_bytes :
      (x : Txt) (w : ℕ) → w < 0x1_0000_0000 → bytes x ≡ int_bytes w → int_of X x ≡ int_value w
  unfolding int_bytes
  int_of-int_bytes x w h e = elim (Bool-cases (leb 0xffff w && ltb w 0x8000_0000)) [
    | inl c ↦
        int_of-four x (w / 0x100_0000 % 256) (w / 0x1_0000 % 256) (w / 256 % 256) (w % 256)
          (e ∙ rw c refl)
        ∙ four_bytes w h
        ∙ value_long w c
    | inr c ↦ int_of-two x (w / 256 % 256) (w % 256) (e ∙ rw c refl) ∙ two_low w ∙ value_short w c
  ]

  -- Any text that holds the message gives its integers.
  pub unpack_int_framed :
      (m : Txt) (before : List (Field X)) (w : ℕ) (after : List (Field X)) (old : ℕ)
      → w < 0x1_0000_0000
      → let f : Field X = record {
        content_type = content_integer;
        payload = of_bytes (int_bytes w);
      } in
        IsFramed X m (encode_all X (before ++ f ∷ after))
        → 2 + size X (before ++ f ∷ after) < 0x1_0000
        → 2 + size X before + 3 < 256
        → binary_unpack_int X m (length before) old ≡ some (true, int_value w)
  unfolding binary_unpack_int int_result
  unpack_int_framed m before w after old small framed lt near =
      let f : Field X = record {
        content_type = content_integer;
        payload = of_bytes (int_bytes w);
      } in
      let (x, run, same) = unpack_framed X m before f after framed lt near in
      rw (run, int_of-int_bytes x w small (same ∙ X.bytes-of_bytes (int_bytes w))) refl

  -- A message into whose empty buffer integers and texts are packed, which fit: unpacking the
  -- integer behind the fields `before` returns 0 and the integer when it is not negative, and the
  -- low 16 bits of a negative one. The headers up to that field have to stay below offset 256.
  pub binary_unpack_int-pack_all :
      (b b' : Txt) (before : List (Field X)) (w : ℕ) (after : List (Field X)) (old : ℕ)
      → w < 0x1_0000_0000
      → binary_coder_reset X b ≡ some b'
      → let f : Field X = record {
        content_type = content_integer;
        payload = of_bytes (int_bytes w);
      } in
        All (λ g. g.content_type < 256) (before ++ f ∷ after)
        → 2 + size X (before ++ f ∷ after) ≤ capacity b
        → 2 + size X (before ++ f ∷ after) < 0x1_0000
        → 2 + size X before + 3 < 256
        → (m : Txt) × (pack_all X b' (before ++ f ∷ after) ≡ (true, m))
          × (binary_unpack_int X m (length before) old ≡ some (true, int_value w))
  unfolding binary_unpack_int int_result
  binary_unpack_int-pack_all b b' before w after old small start ct fits lt near =
      let f : Field X = record {
        content_type = content_integer;
        payload = of_bytes (int_bytes w);
      } in
      let (m, x, packed, run, same) =
        binary_unpack_string_helper-pack_all X b b' before f after start ct fits lt near in
      (m, packed, rw (run, int_of-int_bytes x w small (same ∙ X.bytes-of_bytes (int_bytes w))) refl)
