-- ===== src/AsyncDb/Types.antt =====
-- The library that the database stands on, and the messages between the processes.
use nginz.Prelude.{ℕ, ◌<◌, ◌≡◌, Bool, true, false, Option, List, ◌==◌, if◌then◌else◌}

-- aroop's texts and hash table, which are not part of the repository, with what the code relies
-- on. `print_int` is `aroop_txt_printf("%d")` of a 32-bit pattern.
pub record Aroop : Type 1 where
  pub Txt : Type 0
  pub empty : Txt
  pub is_empty : Txt → Bool
  pub equals : Txt → Txt → Bool
  pub print_int : ℕ → Txt
  -- the names of the hooks
  pub null_hook : Txt
  pub compare_and_set_app : Txt
  pub set_if_null_app : Txt
  pub unset_app : Txt
  pub get_app : Txt
  pub Table : Type 0
  pub table_get : Table → Txt → Option Txt
  pub table_set : Table → Txt → Option Txt → Table
  pub equals_refl : (t : Txt) → equals t t ≡ true
  pub print_int-is_empty : (n : ℕ) → is_empty (print_int n) ≡ false
  pub equals-print_int :
      (m n : ℕ)
      → m < 0x1_0000_0000
      → n < 0x1_0000_0000
      → equals (print_int m) (print_int n) ≡ (m == n)
  pub null_hook-is_empty : is_empty null_hook ≡ false
  -- `true` for the one name of the four hooks
  pub apps_differ :
      (equals set_if_null_app compare_and_set_app ≡ false)
      × (equals unset_app compare_and_set_app ≡ false)
      × (equals unset_app set_if_null_app ≡ false)
      × (equals get_app compare_and_set_app ≡ false)
      × (equals get_app set_if_null_app ≡ false)
      × (equals get_app unset_app ≡ false)
  pub table_get-table_set :
      (t : Table) (k k' : Txt) (v : Option Txt)
      → table_get (table_set t k v) k' ≡ (if equals k k' then v else table_get t k')

pub data Field (A : Aroop) : Type 0 where
  int : ℕ → Field A
  text : A.Txt → Field A

-- `pp_send(dest, msg)`
pub record Sent (A : Aroop) : Type 0 where
  pub dest : ℕ
  pub msg : List (Field A)
