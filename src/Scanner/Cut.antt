-- ===== src/Scanner/Cut.antt =====
-- Words that are put together with delimiters between them, and the scanner's way through them.
use nginz.Prelude.{ℕ, ◌<◌, ◌≡◌, refl, ap, ◌∙◌, true, false, List, [], ◌∷◌, ◌++◌, arith, length, All}
use nginz.Xtring.{Xtring}
use nginz.Scanner.{is_delim, scanner_next_token}
use nginz.Scanner.Words.{after_gap, word, after_word}
use nginz.Scanner.Tokens.{Stops, scanner_next_token_parts}

-- A word has no delimiter in it, and is not empty.
abbrev pub IsToken : List ℕ → Type 0
IsToken w = All (λ (x : ℕ). is_delim x ≡ false) w × (0 < length w)

after_gap_letters : (w r : List ℕ) → IsToken w → after_gap (w ++ r) ≡ w ++ r
unfolding after_gap
after_gap_letters [] r (h, some_left) = absurd (omega arith)
after_gap_letters (x ∷ w) r ((d, h), some_left) = rw d refl

word_letters : (w r : List ℕ) → All (λ (x : ℕ). is_delim x ≡ false) w → Stops r → word (w ++ r) ≡ w
unfolding word
word_letters [] [] h e = refl
word_letters [] (d ∷ r) h e = rw e refl
word_letters (x ∷ w) r (n, h) e = rw n (ap (λ (l : List ℕ). x ∷ l) (word_letters w r h e))

after_word_letters :
    (w r : List ℕ) → All (λ (x : ℕ). is_delim x ≡ false) w → Stops r → after_word (w ++ r) ≡ r
unfolding after_word
after_word_letters [] [] h e = refl
after_word_letters [] (d ∷ r) h e = rw e refl
after_word_letters (x ∷ w) r (n, h) e = rw n (after_word_letters w r h e)

after_gap_delim : (d : ℕ) (l : List ℕ) → is_delim d ≡ true → after_gap (d ∷ l) ≡ after_gap l
unfolding after_gap
after_gap_delim d l e = rw e refl

module _ (X : Xtring) where
  open X use {Txt, bytes}

  -- The first word of a text that starts with one.
  pub next_word :
      (src next : Txt) (w r : List ℕ)
      → bytes src ≡ w ++ r
      → IsToken w
      → Stops r
      → (bytes (scanner_next_token X src next).1 ≡ w)
        × (bytes (scanner_next_token X src next).0 ≡ r)
  next_word src next w r e token stops =
      let (t, s) = scanner_next_token_parts X src next in
      let here : after_gap (bytes src) ≡ w ++ r = ap after_gap e ∙ after_gap_letters w r token in
      (
        t ∙ ap word here ∙ word_letters w r token.0 stops,
        s ∙ ap after_word here ∙ after_word_letters w r token.0 stops,
      )

  -- The first word of a text that starts with one delimiter.
  pub next_word_behind :
      (src next : Txt) (w r : List ℕ) (b : ℕ)
      → bytes src ≡ b ∷ (w ++ r)
      → is_delim b ≡ true
      → IsToken w
      → Stops r
      → (bytes (scanner_next_token X src next).1 ≡ w)
        × (bytes (scanner_next_token X src next).0 ≡ r)
  next_word_behind src next w r b e before token stops =
      let (t, s) = scanner_next_token_parts X src next in
      let here : after_gap (bytes src) ≡ w ++ r =
        ap after_gap e ∙ after_gap_delim b (w ++ r) before ∙ after_gap_letters w r token in
      (
        t ∙ ap word here ∙ word_letters w r token.0 stops,
        s ∙ ap after_word here ∙ after_word_letters w r token.0 stops,
      )

  -- No word is left in an empty text.
  pub no_word : (src next : Txt) → bytes src ≡ [] → bytes (scanner_next_token X src next).1 ≡ []
  unfolding after_gap word
  no_word src next e =
      (scanner_next_token_parts X src next).0 ∙ ap (λ (l : List ℕ). word (after_gap l)) e
