-- ===== src/Scanner/Trim.antt =====
-- What trimming leaves.
use nginz.Prelude.{
  ℕ, zero, suc, ◌≤◌, ◌<◌, ◌≡◌, refl, ap, inl, inr, true, false, arith, Bool-cases, length, get_or,
  take,
}
use native.Mathlib.Decide.{ℕ_discrete}
use mathlib.Core.Path.{subst}
use nginz.Xtring.{Xtring}
use nginz.Scanner.{is_space, trim_loop, scanner_trim}

module _ (X : Xtring) where
  open X use {Txt, bytes, char_at, set_length}

  trim_loop_lem :
      (t : Txt) (len : ℕ)
      → len ≤ length (bytes t)
      → (k : ℕ) × (trim_loop X t len ≡ (set_length k t, k))
        × (k ≤ len)
        × ((j : ℕ) → k ≤ j → j < len → is_space (get_or (bytes t) j 0) ≡ true)
        × ((j : ℕ) → k ≡ suc j → is_space (get_or (bytes t) j 0) ≡ false)
  unfolding trim_loop
  trim_loop_lem t zero h =
      (0, refl, omega arith, λ j lo hi. absurd (omega arith), λ j e. absurd (omega arith))
  trim_loop_lem t (suc len) h =
      let here : char_at t len ≡ get_or (bytes t) len 0 = X.char_at_lem t len (omega arith) in
      elim (Bool-cases (is_space (char_at t len))) [
        | inl space ↦
            let (k, run, bound, spaces, last) = trim_loop_lem t len (omega arith) in
            (
              k,
              rw space run,
              omega arith,
              λ j lo hi. elim (ℕ_discrete len j) [
                | yes same ↦
                    subst (λ (i : ℕ). is_space (get_or (bytes t) i 0) ≡ true) same
                      (subst (λ (c : ℕ). is_space c ≡ true) here space)
                | no ne ↦ spaces j lo (omega arith)
              ],
              last,
            )
        | inr letter ↦ (
          suc len,
          rw letter (ap (λ (n : ℕ). (set_length n t, n)) (omega arith)),
          omega arith,
          λ j lo hi. absurd (omega arith),
          λ j e.
              subst (λ (i : ℕ). is_space (get_or (bytes t) i 0) ≡ false) (omega (arith, e))
                (subst (λ (c : ℕ). is_space c ≡ false) here letter),
        )
      ]

  -- The result is the start of the text, as long as is returned; all behind it is white space, and
  -- its last character is not.
  pub scanner_trim_lem :
      (src : Txt)
      → let k = (scanner_trim X src).1 in
        (bytes (scanner_trim X src).0 ≡ take k (bytes src))
        × (k ≤ length (bytes src))
        × ((j : ℕ) → k ≤ j → j < length (bytes src) → is_space (get_or (bytes src) j 0) ≡ true)
        × ((j : ℕ) → k ≡ suc j → is_space (get_or (bytes src) j 0) ≡ false)
  unfolding scanner_trim
  scanner_trim_lem src =
      let (k, run, bound, spaces, last) = trim_loop_lem src (length (bytes src)) (omega arith) in
      rw run (X.bytes-set_length k src bound, bound, spaces, last)
