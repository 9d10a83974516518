-- ===== src/Scanner/Words.antt =====
-- What a call of the scanner cuts off.
use nginz.Prelude.{
  ℕ, zero, suc, ◌+◌, ◌≡◌, refl, sym, ap, ◌∙◌, inl, inr, false, Option, none, some, List, [], ◌∷◌,
  ◌++◌, arith, if◌then◌else◌, Bool-cases, length, get_or, length-append,
}
use mathlib.Core.List.{append_assoc}
use nginz.Xtring.{Xtring}
use nginz.Scanner.{is_delim, Scan, scan_loop}

-- The delimiters in front, the word behind them, and what follows.
unfoldable pub gap : List ℕ → List ℕ
gap [] = []
gap (x ∷ xs) = let rest = gap xs in if is_delim x then x ∷ rest else []

unfoldable pub after_gap : List ℕ → List ℕ
after_gap [] = []
after_gap (x ∷ xs) = let rest = after_gap xs in if is_delim x then rest else x ∷ xs

unfoldable pub word : List ℕ → List ℕ
word [] = []
word (x ∷ xs) = let rest = word xs in if is_delim x then [] else x ∷ rest

unfoldable pub after_word : List ℕ → List ℕ
after_word [] = []
after_word (x ∷ xs) = let rest = after_word xs in if is_delim x then x ∷ xs else rest

pub parts_word : (l : List ℕ) → word l ++ after_word l ≡ l
unfolding word after_word
parts_word [] = refl
parts_word (x ∷ xs) = elim (Bool-cases (is_delim x)) [
  | inl d ↦ rw d refl
  | inr d ↦ rw d (ap (λ (t : List ℕ). x ∷ t) (parts_word xs))
]

pub parts_gap : (l : List ℕ) → gap l ++ after_gap l ≡ l
unfolding gap after_gap
parts_gap [] = refl
parts_gap (x ∷ xs) = elim (Bool-cases (is_delim x)) [
  | inl d ↦ rw d (ap (λ (t : List ℕ). x ∷ t) (parts_gap xs))
  | inr d ↦ rw d refl
]

get_or_mid : (pre l : List ℕ) (x i : ℕ) → i ≡ length pre → get_or (pre ++ x ∷ l) i 0 ≡ x
get_or_mid [] l x i e = rw e refl
get_or_mid (p ∷ pre) l x zero e = absurd (omega arith)
get_or_mid (p ∷ pre) l x (suc i) e = get_or_mid pre l x i (omega arith)

module _ (X : Xtring) where
  open X use {Txt, bytes, char_at}

  abbrev pub At : Txt → List ℕ → List ℕ → ℕ → Type 0
  At src pre l i = (bytes src ≡ pre ++ l) × (i ≡ length pre)

  char_here : (src : Txt) (pre l : List ℕ) (x i : ℕ) → At src pre (x ∷ l) i → char_at src i ≡ x
  char_here src pre l x i (e, here) =
      X.char_at_lem src i (rw (e, length-append) (omega arith)) ∙ rw e (get_or_mid pre l x i here)

  step :
      (src : Txt) (pre l : List ℕ) (x i : ℕ)
      → At src pre (x ∷ l) i
      → At src (pre ++ x ∷ []) l (i + 1)
  step src pre l x i (e, here) =
      (e ∙ sym (append_assoc pre (x ∷ []) l), rw length-append (omega arith))

  unfoldable pub ends : List ℕ → ℕ → Option ℕ
  ends [] i = none
  ends (x ∷ xs) i = some i

  -- Inside of a word.
  scan_word :
      (l pre : List ℕ) (src : Txt) (i s : ℕ)
      → At src pre l i
      → scan_loop X src (length l) i (some s) ≡ record {
        i = i + length (word l);
        token_start = some s;
        trim_at = ends (after_word l) (i + length (word l));
      }
  unfolding scan_loop word after_word ends
  scan_word [] pre src i s at = ground arith
  scan_word (x ∷ l) pre src i s at = elim (Bool-cases (is_delim x)) [
    | inl d ↦ rw (char_here src pre l x i at, d) (ground arith)
    | inr d ↦
        let n : i + 1 + length (word l) ≡ i + suc (length (word l)) = omega arith in
        rw (char_here src pre l x i at, d)
          (scan_word l (pre ++ x ∷ []) src (i + 1) s (step src pre l x i at)
            ∙ ap
                (λ (k : ℕ).
                  let r : Scan = record {
                    i = k;
                    token_start = some s;
                    trim_at = ends (after_word l) k;
                  } in
                  r)
                n)
  ]

  -- The result of a scan that meets the text `l` at `j`, with no delimiter in front.
  unfoldable pub found : ℕ → List ℕ → Scan
  found j [] = record { i = j; token_start = none; trim_at = none }
  found j (x ∷ xs) = record {
    i = j + length (word (x ∷ xs));
    token_start = some j;
    trim_at = ends (after_word (x ∷ xs)) (j + length (word (x ∷ xs)));
  }

  found_start :
      (x : ℕ) (l : List ℕ) (i : ℕ)
      → is_delim x ≡ false
      → found i (x ∷ l) ≡ record {
        i = i + 1 + length (word l);
        token_start = some i;
        trim_at = ends (after_word l) (i + 1 + length (word l));
      }
  unfolding found word after_word
  found_start x l i e =
      let n : i + suc (length (word l)) ≡ i + 1 + length (word l) = omega arith in
      rw e (
        ap
          (λ (k : ℕ).
            let r : Scan = record {
              i = k;
              token_start = some i;
              trim_at = ends (after_word l) k;
            } in
            r)
          n)

  -- In front of the word.
  pub scan_gap :
      (l pre : List ℕ) (src : Txt) (i : ℕ)
      → At src pre l i
      → scan_loop X src (length l) i none ≡ found (i + length (gap l)) (after_gap l)
  unfolding scan_loop gap after_gap
  scan_gap [] pre src i at = unfold found in ground arith
  scan_gap (x ∷ l) pre src i at = elim (Bool-cases (is_delim x)) [
    | inl d ↦
        let n : i + 1 + length (gap l) ≡ i + suc (length (gap l)) = omega arith in
        rw (char_here src pre l x i at, d)
          (scan_gap l (pre ++ x ∷ []) src (i + 1) (step src pre l x i at)
            ∙ ap (λ (k : ℕ). found k (after_gap l)) n)
    | inr d ↦
        let n : i ≡ i + 0 = omega arith in
        rw (char_here src pre l x i at, d)
          (scan_word l (pre ++ x ∷ []) src (i + 1) i (step src pre l x i at)
            ∙ sym (found_start x l i d)
            ∙ ap (λ (k : ℕ). found k (x ∷ l)) n)
  ]
