-- ===== src/Xtring.antt =====
-- The texts of aroop (aroop/core/xtring.h), on which the scanner and the binary coder stand. They
-- are not part of the repository: the type and its operations are a parameter, with what the code
-- relies on as laws. `bytes` is the content of a text, as long as `aroop_txt_length` says.
pub mod Plain
use nginz.Prelude.{ℕ, ◌+◌, ◌≤◌, ◌<◌, ◌≡◌, List, [], ◌∷◌, ◌++◌, length, get_or, set, take, drop}

pub record Xtring : Type 1 where
  pub Txt : Type 0
  pub bytes : Txt → List ℕ
  pub capacity : Txt → ℕ
  -- aroop_txt_char_at, and a read through aroop_txt_to_string
  pub char_at : Txt → ℕ → ℕ
  pub memory : Txt → ℕ → ℕ
  pub set_length : ℕ → Txt → Txt
  pub set_char_at : ℕ → ℕ → Txt → Txt
  pub concat_char : ℕ → Txt → Txt
  pub concat : Txt → Txt → Txt
  pub shift : ℕ → Txt → Txt
  pub truncate : ℕ → Txt → Txt
  -- a text after aroop_txt_destroy
  pub destroyed : Txt
  -- a static buffer that is filled through its pointer
  pub of_bytes : List ℕ → Txt
  pub char_at_lem : (t : Txt) (i : ℕ) → i < length (bytes t) → char_at t i ≡ get_or (bytes t) i 0
  pub memory_lem : (t : Txt) (i : ℕ) → i < length (bytes t) → memory t i ≡ get_or (bytes t) i 0
  pub bytes-set_length :
      (n : ℕ) (t : Txt) → n ≤ length (bytes t) → bytes (set_length n t) ≡ take n (bytes t)
  pub bytes-set_char_at :
      (i c : ℕ) (t : Txt)
      → i < length (bytes t)
      → c < 256
      → bytes (set_char_at i c t) ≡ set (bytes t) i c
  pub bytes-concat_char :
      (c : ℕ) (t : Txt)
      → length (bytes t) + 1 ≤ capacity t
      → c < 256
      → bytes (concat_char c t) ≡ bytes t ++ c ∷ []
  pub bytes-concat :
      (t x : Txt)
      → length (bytes t) + length (bytes x) ≤ capacity t
      → bytes (concat t x) ≡ bytes t ++ bytes x
  pub bytes-shift : (n : ℕ) (t : Txt) → n ≤ length (bytes t) → bytes (shift n t) ≡ drop n (bytes t)
  pub bytes-truncate :
      (n : ℕ) (t : Txt) → n ≤ length (bytes t) → bytes (truncate n t) ≡ take n (bytes t)
  pub bytes-destroyed : bytes destroyed ≡ []
  pub bytes-of_bytes : (l : List ℕ) → bytes (of_bytes l) ≡ l
  -- writing into a buffer does not move it
  pub capacity-set_length : (n : ℕ) (t : Txt) → capacity (set_length n t) ≡ capacity t
  pub capacity-set_char_at : (i c : ℕ) (t : Txt) → capacity (set_char_at i c t) ≡ capacity t
  pub capacity-concat_char : (c : ℕ) (t : Txt) → capacity (concat_char c t) ≡ capacity t
  pub capacity-concat : (t x : Txt) → capacity (concat t x) ≡ capacity t
