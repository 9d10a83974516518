-- ===== src/AsyncDb/Plain.antt =====
-- Texts as numbers and tables as functions: the assumptions on aroop can be met.
use nginz.Prelude.{ℕ, ◌+◌, ◌≡◌, refl, Option, arith, ◌==◌, if◌then◌else◌, ==_refl, ==_of_ne}
use nginz.AsyncDb.{Aroop}

pub print_shift : (m n : ℕ) → (m + 10 == n + 10) ≡ (m == n)
print_shift m n = ground arith

abbrev pub plain_aroop : Aroop
plain_aroop = record {
  Txt = ℕ;
  empty = 0;
  is_empty = λ t. t == 0;
  equals = ◌==◌;
  print_int = λ n. n + 10;
  null_hook = 1;
  compare_and_set_app = 2;
  set_if_null_app = 3;
  unset_app = 4;
  get_app = 5;
  Table = ℕ → Option ℕ;
  table_get = λ t k. t k;
  table_set = λ t k v k'. if k == k' then v else t k';
  equals_refl = ==_refl;
  print_int-is_empty = λ n. ==_of_ne (n + 10) 0 (omega arith);
  equals-print_int = λ m n h k. print_shift m n;
  null_hook-is_empty = refl;
  apps_differ = (refl, refl, refl, refl, refl, refl);
  table_get-table_set = λ t k k' v. refl;
}
