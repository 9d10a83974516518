-- ===== src/Scanner/Tokens.antt =====
-- A call of the scanner takes the first word of the text.
use nginz.Prelude.{
  ℕ, ◌+◌, ◌≤◌, ◌≡◌, refl, sym, ap, ◌∙◌, inl, inr, true, false, none, List, [], ◌∷◌, ◌++◌, arith,
  Bool-cases, length, length-append, drop_all, take_all, All,
}
use mathlib.Core.List.{append-nil, append_assoc}
use nginz.Xtring.{Xtring}
use nginz.Scanner.{is_delim, scan_loop, token_of, trimmed, scanner_next_token}
use nginz.Scanner.Words.{
  gap, after_gap, word, after_word, parts_gap, parts_word, ends, found, scan_gap,
}

gap_delims : (l : List ℕ) → All (λ x. is_delim x ≡ true) (gap l)
unfolding gap
gap_delims [] = tt
gap_delims (x ∷ xs) = elim (Bool-cases (is_delim x)) [
  | inl d ↦ rw d (d, gap_delims xs)
  | inr d ↦ rw d tt
]

word_letters : (l : List ℕ) → All (λ x. is_delim x ≡ false) (word l)
unfolding word
word_letters [] = tt
word_letters (x ∷ xs) = elim (Bool-cases (is_delim x)) [
  | inl d ↦ rw d tt
  | inr d ↦ rw d (d, word_letters xs)
]

-- What is left is empty or goes on with a delimiter.
abbrev pub Stops : List ℕ → Type 0
Stops [] = Unit {0}
Stops (x ∷ xs) = is_delim x ≡ true

after_word-Stops : (l : List ℕ) → Stops (after_word l)
unfolding after_word
after_word-Stops [] = tt
after_word-Stops (x ∷ xs) = elim (Bool-cases (is_delim x)) [
  | inl d ↦ rw d d
  | inr d ↦ rw d (after_word-Stops xs)
]

abbrev Starts : List ℕ → Type 0
Starts [] = Unit {0}
Starts (x ∷ xs) = is_delim x ≡ false

after_gap-Starts : (l : List ℕ) → Starts (after_gap l)
unfolding after_gap
after_gap-Starts [] = tt
after_gap-Starts (x ∷ xs) = elim (Bool-cases (is_delim x)) [
  | inl d ↦ rw d (after_gap-Starts xs)
  | inr d ↦ rw d d
]

-- No word is found only where there is nothing but delimiters.
none_left : (l : List ℕ) → Starts l → word l ≡ [] → after_word l ≡ []
unfolding word after_word
none_left [] s e = refl
none_left (x ∷ xs) s e = let e' : x ∷ word xs ≡ [] = rw s at e in cc

module _ (X : Xtring) where
  open X use {Txt, bytes, shift, truncate}

  module _ (src : Txt) (g w a : List ℕ) (e : bytes src ≡ g ++ (w ++ a)) where
    fits : length g + length w ≤ length (bytes src)
    fits = rw (e, length-append, length-append) (omega arith)

    rest_of : bytes (shift (length g + length w) src) ≡ a
    rest_of =
        X.bytes-shift (length g + length w) src fits
        ∙ rw (e, ← length-append g w, ← append_assoc g w a) (drop_all (g ++ w) a)

    cut_at : (n : ℕ) → n ≡ length g + length w → bytes (truncate n src) ≡ g ++ w
    cut_at n h =
        X.bytes-truncate n src (rw h fits)
        ∙ rw (h, e, ← length-append g w, ← append_assoc g w a) (take_all (g ++ w) a)

  token_bytes :
      (src : Txt) (g w a : List ℕ)
      → bytes src ≡ g ++ (w ++ a)
      → bytes (shift (length g) (trimmed X src (ends X a (length g + length w)))) ≡ w
  unfolding trimmed ends
  token_bytes src g w [] e =
      let whole : bytes src ≡ g ++ w = e ∙ ap (λ (t : List ℕ). g ++ t) (append-nil w) in
      X.bytes-shift (length g) src (rw (whole, length-append) (omega arith))
      ∙ rw whole (drop_all g w)
  token_bytes src g w (x ∷ a) e =
      let whole : bytes (truncate (length g + length w) src) ≡ g ++ w =
        cut_at src g w (x ∷ a) e (length g + length w) refl in
      X.bytes-shift (length g) (truncate (length g + length w) src)
        (rw (whole, length-append) (omega arith))
      ∙ rw whole (drop_all g w)

  -- The two texts that a scan leaves, by what it met.
  token_cases :
      (src next : Txt) (g m : List ℕ)
      → bytes src ≡ g ++ m
      → (bytes (token_of X src next (found X (length g) m) (found X (length g) m).token_start)
          ≡ word m)
        × (bytes (shift (found X (length g) m).i src) ≡ after_word m)
  unfolding token_of found
  token_cases src next g [] e =
      unfold word after_word in
      (
        X.bytes-truncate 0 next (omega arith),
        X.bytes-shift (length g) src (rw (e, length-append) (omega arith)) ∙ rw e (drop_all g []),
      )
  token_cases src next g (x ∷ m) e =
      let whole : bytes src ≡ g ++ (word (x ∷ m) ++ after_word (x ∷ m)) =
        e ∙ ap (λ (t : List ℕ). g ++ t) (sym (parts_word (x ∷ m))) in
      (
        token_bytes src g (word (x ∷ m)) (after_word (x ∷ m)) whole,
        rest_of src g (word (x ∷ m)) (after_word (x ∷ m)) whole,
      )

  -- What is found, by the names of the parts.
  pub scanner_next_token_parts :
      (src next : Txt)
      → (bytes (scanner_next_token X src next).1 ≡ word (after_gap (bytes src)))
        × (bytes (scanner_next_token X src next).0 ≡ after_word (after_gap (bytes src)))
  unfolding scanner_next_token
  scanner_next_token_parts src next =
      let l : List ℕ = bytes src in
      let m : List ℕ = after_gap l in
      let scanned : scan_loop X src (length l) 0 none ≡ found X (length (gap l)) m =
        scan_gap X l [] src 0 (refl, refl) ∙ ap (λ (k : ℕ). found X k m) (omega arith) in
      let (t, r) = token_cases src next (gap l) m (sym (parts_gap l)) in
      (rw scanned t, rw scanned r)

  -- A call cuts the text into delimiters, a word, and a rest that is empty or starts with a
  -- delimiter: `next` becomes the word and `src` the rest. No word means that only delimiters were
  -- left, and then nothing is left.
  pub scanner_next_token_lem :
      (src next : Txt)
      → (front token rest : List ℕ) × (bytes src ≡ front ++ (token ++ rest))
        × All (λ x. is_delim x ≡ true) front
        × All (λ x. is_delim x ≡ false) token
        × Stops rest
        × (token ≡ [] → rest ≡ [])
        × (bytes (scanner_next_token X src next).1 ≡ token)
        × (bytes (scanner_next_token X src next).0 ≡ rest)
  unfolding scanner_next_token
  scanner_next_token_lem src next =
      let l : List ℕ = bytes src in
      let m : List ℕ = after_gap l in
      let (t, r) = scanner_next_token_parts src next in
      (
        gap l,
        word m,
        after_word m,
        rw (parts_word m) (sym (parts_gap l)),
        gap_delims l,
        word_letters m,
        after_word-Stops m,
        none_left m (after_gap-Starts l),
        t,
        r,
      )
