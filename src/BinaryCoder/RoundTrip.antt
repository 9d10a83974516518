-- ===== src/BinaryCoder/RoundTrip.antt =====
-- What unpacking finds in a message of several fields.
use nginz.Prelude.{
  ltb-false, ltb-true, ℕ, ◌+◌, ◌*◌, ◌%◌, ◌≤◌, ◌<◌, ◌≡◌, refl, ◌∙◌, true, some, List, [], ◌∷◌, ◌++◌,
  arith, ==_refl, length, get_or, length-append, drop_all, take_all,
}
use mathlib.Core.List.{append_assoc}
use mathlib.Core.Path.{subst}
use nginz.Xtring.{Xtring}
use nginz.BinaryCoder.{header_len, unpack_loop, high_byte, low_byte}
use nginz.BinaryCoder.Layout.{Field, encode, encode_all, size}

get_or_mid : (pre rest : List ℕ) (c : ℕ) → get_or (pre ++ c ∷ rest) (length pre) 0 ≡ c
get_or_mid [] rest c = refl
get_or_mid (x ∷ pre) rest c = get_or_mid pre rest c

pub two_bytes : (n : ℕ) → n < 0x1_0000 → high_byte n * 256 + low_byte n ≡ n
two_bytes n h = omega arith

mod_small : (n : ℕ) → n < 256 → n % 256 ≡ n
mod_small n h = omega arith

module _ (X : Xtring) where
  open X use {Txt, bytes, memory, shift, set_length}

  pub length-encode_all : (fs : List (Field X)) → length (encode_all X fs) ≡ size X fs
  length-encode_all [] = refl
  length-encode_all (f ∷ fs) = rw (length-append, length-encode_all fs) (omega arith)

  memory_at :
      (b : Txt) (pre rest : List ℕ) (c i : ℕ)
      → bytes b ≡ pre ++ c ∷ rest
      → length pre ≡ i
      → memory b i ≡ c
  memory_at b pre rest c i e p =
      subst (λ k. memory b k ≡ c) p
        (X.memory_lem b (length pre) (rw (e, length-append) (omega arith))
          ∙ rw e (get_or_mid pre rest c))

  -- The header of a field that starts behind `pre`.
  header_len_lem :
      (b : Txt) (pre rest : List ℕ) (f : Field X)
      → bytes b ≡ pre ++ (encode X f ++ rest)
      → length (bytes f.payload) < 0x1_0000
      → header_len X b (length pre) ≡ length (bytes f.payload)
  unfolding header_len
  header_len_lem b pre rest f e lt =
      let n = length (bytes f.payload) in
      let high : memory b (length pre + 1) ≡ high_byte n =
        memory_at b (pre ++ f.content_type ∷ []) (low_byte n ∷ (bytes f.payload ++ rest))
          (high_byte n) (length pre + 1) (e ∙ rw append_assoc refl)
          (rw length-append (omega arith)) in
      let low : memory b (length pre + 2) ≡ low_byte n =
        memory_at b (pre ++ f.content_type ∷ high_byte n ∷ []) (bytes f.payload ++ rest)
          (low_byte n) (length pre + 2) (e ∙ rw append_assoc refl)
          (rw length-append (omega arith)) in
      rw (high, low) (two_bytes n lt)

  shift_lem :
      (b : Txt) (pre rest : List ℕ) (f : Field X)
      → bytes b ≡ pre ++ (encode X f ++ rest)
      → bytes (set_length (length (bytes f.payload)) (shift (length pre + 3) b)) ≡ bytes f.payload
  shift_lem b pre rest f e =
      let n = length (bytes f.payload) in
      let header = pre ++ f.content_type ∷ high_byte n ∷ low_byte n ∷ [] in
      let header_length : length header ≡ length pre + 3 = rw length-append (omega arith) in
      let parts : bytes b ≡ header ++ (bytes f.payload ++ rest) = e ∙ rw append_assoc refl in
      let shifted : bytes (shift (length pre + 3) b) ≡ bytes f.payload ++ rest =
        X.bytes-shift (length pre + 3) b (rw (parts, length-append) (omega (arith, header_length)))
        ∙ rw (parts, ← header_length) (drop_all header (bytes f.payload ++ rest)) in
      X.bytes-set_length n (shift (length pre + 3) b) (rw (shifted, length-append) (omega arith))
      ∙ rw shifted (take_all (bytes f.payload) rest)

  pub unpack_loop_lem :
      (b : Txt) (blen : ℕ) (before : List (Field X)) (f : Field X) (pre rest : List ℕ)
      → bytes b ≡ pre ++ (encode_all X before ++ (encode X f ++ rest))
      → length pre + size X before + 3 < 256
      → length (bytes f.payload) < 0x1_0000
      → length pre + size X before + 3 + length (bytes f.payload) ≤ blen
      → (x : Txt) × (unpack_loop X b f.content_type blen (length before) (length pre)
          ≡ some (true, x))
        × (bytes x ≡ bytes f.payload)
  unfolding unpack_loop
  unpack_loop_lem b blen [] f pre rest e h lt inside =
      let n = length (bytes f.payload) in
      let head : memory b (length pre) ≡ f.content_type =
        memory_at b pre (high_byte n ∷ low_byte n ∷ (bytes f.payload ++ rest)) f.content_type
          (length pre) e refl in
      (
        set_length n (shift (length pre + 3) b),
        rw
            (
              header_len_lem b pre rest f e lt,
              ltb-false blen (length pre + n) (omega arith),
              head,
              ==_refl f.content_type,
              mod_small (length pre + 3) (omega arith),
            )
            refl,
        shift_lem b pre rest f e,
      )
  unpack_loop_lem b blen (g ∷ before) f pre rest e h lt inside =
      let n = length (bytes g.payload) in
      let tail = encode_all X before ++ (encode X f ++ rest) in
      let here : bytes b ≡ pre ++ (encode X g ++ tail) = e ∙ rw append_assoc refl in
      let next : bytes b ≡ (pre ++ encode X g) ++ tail = here ∙ rw append_assoc refl in
      let pos : length (pre ++ encode X g) ≡ length pre + (n + 3) =
        rw length-append (omega arith) in
      let (x, run, same) =
        unpack_loop_lem b blen before f (pre ++ encode X g) rest next (rw pos (omega arith)) lt
          (rw pos (omega arith)) in
      (
        x,
        rw
            (
              header_len_lem b pre tail g here (omega arith),
              ltb-false blen (length pre + n) (omega arith),
              mod_small (length pre + (n + 3)) (omega arith),
              ltb-true (length pre + (n + 3)) blen (omega arith),
              ← pos,
            )
            run,
        same,
      )
