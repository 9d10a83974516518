-- ===== src/Scanner.antt =====
-- base/src/scanner.c: cutting a text into words.
mod Words
pub mod Cut
pub mod Tokens
mod Trim
mod Tests
use nginz.Prelude.{
  ℕ, zero, suc, ◌+◌, Bool, ◌&&◌, ◌||◌, Option, none, some, leb, ◌==◌, if◌then◌else◌, length,
}
use nginz.Xtring.{Xtring}

-- ' ', '\r' and '\n'
unfoldable pub is_delim : ℕ → Bool
is_delim x = x == 32 || x == 13 || x == 10

-- isspace of the C locale: ' ' and '\t' to '\r'
unfoldable pub is_space : ℕ → Bool
is_space x = x == 32 || (leb 9 x && leb x 13)

-- The variables of the loop when it ends; `none` is -1.
pub record Scan : Type 0 where
  pub i : ℕ
  pub token_start : Option ℕ
  pub trim_at : Option ℕ

abbrev or_here : Option ℕ → ℕ → Option ℕ
or_here none i = some i
or_here (some start) i = some start

module _ (X : Xtring) where
  open X use {Txt, bytes, char_at, shift, truncate, set_length}

  -- The loop from `i` on, with as many rounds as there are characters left.
  unfoldable pub scan_loop : Txt → ℕ → ℕ → Option ℕ → Scan
  scan_loop src zero i token_start = record { i = i; token_start = token_start; trim_at = none }
  scan_loop src (suc n) i none =
      let skip = scan_loop src n (i + 1) none in
      let start = scan_loop src n (i + 1) (some i) in
      if is_delim (char_at src i) then skip else start
  scan_loop src (suc n) i (some s) =
      let go = scan_loop src n (i + 1) (some s) in
      if is_delim (char_at src i)
      then record { i = i; token_start = some s; trim_at = some i }
      else go

  unfoldable pub trimmed : Txt → Option ℕ → Txt
  trimmed t none = t
  trimmed t (some n) = truncate n t

  unfoldable pub token_of : Txt → Txt → Scan → Option ℕ → Txt
  unfolding trimmed
  token_of src next r none = truncate 0 next
  token_of src next r (some start) = shift start (trimmed src r.trim_at)

  -- The new `src` and `next`.
  unfoldable pub scanner_next_token : Txt → Txt → Txt × Txt
  unfolding scan_loop token_of is_delim
  scanner_next_token src next =
      let r = scan_loop src (length (bytes src)) 0 none in
      (shift r.i src, token_of src next r r.token_start)

  -- `while(len--)`: the new `trimmed`, and the length that is returned.
  trim_loop : Txt → ℕ → Txt × ℕ
  trim_loop t zero = (set_length 0 t, 0)
  trim_loop t (suc len) =
      let shorter = trim_loop t len in
      if is_space (char_at t len) then shorter else (set_length (len + 1) t, len + 1)

  pub scanner_trim : Txt → Txt × ℕ
  unfolding trim_loop is_space
  scanner_trim src = trim_loop src (length (bytes src))
