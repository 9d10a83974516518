-- ===== src/Scanner/Tests.antt =====
-- The scanner on a small text.
use nginz.Prelude.{get_or, suc, ◌≤◌, ◌<◌, ℕ, ◌≡◌, true, false, List, [], ◌∷◌, ◌++◌, All}
use nginz.Xtring.Plain.{PlainTxt, plain, plain_xtring}
use nginz.Scanner.{is_delim, is_space, trim_loop, scanner_trim, scanner_next_token}
use nginz.Scanner.Trim.{scanner_trim_lem}
use nginz.Scanner.Tokens.{Stops, scanner_next_token_lem}

-- " ab c"
abbrev text : PlainTxt
text = plain (32 ∷ 97 ∷ 98 ∷ 32 ∷ 99 ∷ []) 8

scanner_next_token_example :
    (front token rest : List ℕ) × (text.content ≡ front ++ (token ++ rest))
    × All (λ x. is_delim x ≡ true) front
    × All (λ x. is_delim x ≡ false) token
    × Stops rest
    × (token ≡ [] → rest ≡ [])
    × ((scanner_next_token plain_xtring text (plain [] 8)).1.content ≡ token)
    × ((scanner_next_token plain_xtring text (plain [] 8)).0.content ≡ rest)
scanner_next_token_example = scanner_next_token_lem plain_xtring text (plain [] 8)

-- "a  " loses its two spaces.
scanner_trim_example :
    ((scanner_trim plain_xtring (plain (97 ∷ 32 ∷ 9 ∷ []) 8)).0.content ≡ 97 ∷ [])
    × (1 ≤ 3)
    × ((j : ℕ) → 1 ≤ j → j < 3 → is_space (get_or (97 ∷ 32 ∷ 9 ∷ []) j 0) ≡ true)
    × ((j : ℕ) → 1 ≡ suc j → is_space (get_or (97 ∷ 32 ∷ 9 ∷ []) j 0) ≡ false)
unfolding scanner_trim trim_loop is_space
scanner_trim_example = scanner_trim_lem plain_xtring (plain (97 ∷ 32 ∷ 9 ∷ []) 8)
