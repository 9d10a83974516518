-- ===== src/BinaryCoder/Framed.antt =====
-- The fix-up of a received message, and packing field by field.
use nginz.Prelude.{
  ℕ, ◌+◌, ◌%◌, ◌≤◌, ◌<◌, ◌≡◌, refl, sym, ap, ◌∙◌, inl, inr, true, ◌&&◌, some, List, [], ◌∷◌, ◌++◌,
  arith, ltb, leb, ◌==◌, eq_of_==, ltb-true, leb-true, Bool-cases, length, take, length-append,
  take_all,
}
use mathlib.Core.List.{append-nil}
use nginz.Xtring.{Xtring}
use nginz.BinaryCoder.{
  high_byte, low_byte, base_len, binary_coder_fixup, content_integer, content_string, int_bytes,
  binary_coder_reset_for_pid, binary_pack_int, binary_pack_string,
}
use mathlib.Core.Path.{subst}
use nginz.BinaryCoder.Message.{
  pack_all-IsFramed, binary_coder_reset-IsFramed, binary_coder_reset_lem,
}
use nginz.BinaryCoder.Layout.{Field, encode_all, size, pack_all, IsFramed}
use nginz.BinaryCoder.RoundTrip.{two_bytes, length-encode_all}

nothing_behind :
    (body junk : List ℕ)
    → length junk ≡ 0
    → high_byte (2 + length body) ∷ low_byte (2 + length body) ∷ (body ++ junk)
      ≡ high_byte (2 + length body) ∷ low_byte (2 + length body) ∷ body
nothing_behind body [] e = rw append-nil refl
nothing_behind body (x ∷ junk) e = absurd (omega (arith, e))

pub take_whole : (n : ℕ) (l : List ℕ) → length l ≡ n → take n l ≡ l
take_whole n l e =
    ap (λ k. take k l) (sym e) ∙ ap (λ t. take (length l) t) (sym (append-nil l)) ∙ take_all l []

take_framed :
    (body junk : List ℕ)
    → take
        (2 + length body)
        (high_byte (2 + length body) ∷ low_byte (2 + length body) ∷ (body ++ junk))
      ≡ high_byte (2 + length body) ∷ low_byte (2 + length body) ∷ body
take_framed body junk =
    let l = high_byte (2 + length body) ∷ low_byte (2 + length body) ∷ body in
    let n : 2 + length body ≡ length l = omega arith in
    ap (λ k. take k (l ++ junk)) n ∙ take_all l junk

-- Whatever stands behind the message in the buffer, the fix-up cuts it off.
pub binary_coder_fixup-IsFramed :
    (X : Xtring) (t : X.Txt) (body junk : List ℕ)
    → X.bytes t ≡ high_byte (2 + length body) ∷ low_byte (2 + length body) ∷ (body ++ junk)
    → 2 + length body < 0x1_0000
    → 2 ≤ length (X.bytes t) % 256
    → (u : X.Txt) × (binary_coder_fixup X t ≡ some u) × IsFramed X u body
unfolding binary_coder_fixup base_len
binary_coder_fixup-IsFramed X t body junk e lt long =
    let n = 2 + length body in
    let total : length (X.bytes t) ≡ n + length junk =
      rw e (omega (arith, length-append body junk)) in
    let base : base_len X t ≡ n =
      rw (X.char_at_lem t 0 (rw total (omega arith)), X.char_at_lem t 1 (rw total (omega arith)), e)
        (two_bytes n lt) in
    let cut : base_len X t ≡ n → IsFramed X (X.set_length (base_len X t) t) body = λ b.
      X.bytes-set_length (base_len X t) t (rw (b, total) (omega arith))
      ∙ rw (b, e) (take_framed body junk) in
    let checked : leb 2 (length (X.bytes t) % 256) ≡ true = leb-true _ _ long in
    elim (Bool-cases (base_len X t == length (X.bytes t))) [
      | inl same ↦
          let full : n ≡ n + length junk =
            sym base ∙ eq_of_== (base_len X t) (length (X.bytes t)) same ∙ total in
          (t, rw (checked, same) refl, e ∙ nothing_behind body junk (omega (arith, full)))
      | inr more ↦ (X.set_length (base_len X t) t, rw (checked, more) refl, cut base)
    ]

-- An integer and a text, as they stand in a message.
abbrev pub int_field : (X : Xtring) → ℕ → Field X
int_field X w = record { content_type = content_integer; payload = X.of_bytes (int_bytes w) }

abbrev pub text_field : (X : Xtring) → X.Txt → Field X
text_field X x = record { content_type = content_string; payload = x }

length-int_bytes : (w : ℕ) → length (int_bytes w) ≤ 4
unfolding int_bytes
length-int_bytes w = elim (Bool-cases (leb 0xffff w && ltb w 0x8000_0000)) [
  | inl c ↦ rw c (omega arith)
  | inr c ↦ rw c (omega arith)
]

-- The fields of a message to a process: the sender, an integer, and a text.
abbrev pub pid_fields : (X : Xtring) → ℕ → ℕ → X.Txt → List (Field X)
pid_fields X srcpid n x = int_field X srcpid ∷ int_field X n ∷ text_field X x ∷ []

pub size-pid_fields :
    (X : Xtring) (srcpid n : ℕ) (x : X.Txt)
    → size X (pid_fields X srcpid n x) ≤ 17 + length (X.bytes x)
size-pid_fields X srcpid n x =
    rw (X.bytes-of_bytes (int_bytes srcpid), X.bytes-of_bytes (int_bytes n))
      (omega (arith, length-int_bytes srcpid, length-int_bytes n))

pub length-pid_fields :
    (X : Xtring) (srcpid n : ℕ) (x : X.Txt)
    → length (encode_all X (pid_fields X srcpid n x)) ≤ 17 + length (X.bytes x)
length-pid_fields X srcpid n x =
    rw (length-encode_all X (pid_fields X srcpid n x)) (size-pid_fields X srcpid n x)

-- A buffer that is reset for a process takes an integer and a text that fit.
pub binary_coder_reset_for_pid-IsFramed :
    (X : Xtring) (bin x : X.Txt) (srcpid n : ℕ)
    → 256 ≤ X.capacity bin
    → srcpid < 0x8000_0000
    → length (X.bytes x) + 19 ≤ X.capacity bin
    → length (X.bytes x) + 19 < 0x1_0000
    → (start : X.Txt) × (binary_coder_reset_for_pid X bin srcpid ≡ some start)
      × IsFramed X
          (binary_pack_string X (binary_pack_int X start n).1 x).1
          (encode_all X (pid_fields X srcpid n x))
unfolding binary_coder_reset_for_pid binary_pack_string binary_pack_int pack_all
binary_coder_reset_for_pid-IsFramed X bin x srcpid n big small fits lt =
    let (b, begun) = binary_coder_reset_lem X bin big in
    let (framed, room) = binary_coder_reset-IsFramed X bin b begun in
    let bound = size-pid_fields X srcpid n x in
    let (m, packed, framed') =
      pack_all-IsFramed X b [] (pid_fields X srcpid n x) framed
        (omega arith, (omega arith, (omega arith, tt))) (rw room (omega (arith, bound)))
        (omega (arith, bound)) in
    (
      (binary_pack_int X b srcpid).1,
      rw (ltb-true srcpid 0x8000_0000 small, begun) refl,
      subst (λ t. IsFramed X t (encode_all X (pid_fields X srcpid n x)))
          (sym (ap (λ p. p.1) packed)) framed',
    )
