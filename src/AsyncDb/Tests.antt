-- ===== src/AsyncDb/Tests.antt =====
-- Requests to the master on small examples.
use nginz.Prelude.{
  true, ℕ, ◌≡◌, refl, false, Option, none, some, List, [], ◌∷◌, arith, ◌==◌, if◌then◌else◌,
}
use nginz.AsyncDb.{
  int, text, unpack_int, unpack_string, Field, async_db_compare_and_swap, async_db_set_if_null,
  async_db_increment, master_call,
}
use nginz.Xtring.Plain.{PlainTxt, plain, plain_xtring}
use nginz.BinaryCoder.{
  int_bytes, binary_coder_reset, binary_unpack_int, binary_unpack_string_helper,
}
use nginz.BinaryCoder.Layout.{pack_all}
use nginz.AsyncDb.Wire.{wire, unpack_int-pack_all, unpack_string-pack_all}
use nginz.AsyncDb.Plain.{plain_aroop}
use nginz.AsyncDb.Requests.{reply_of, async_db_compare_and_swap_lem}
use nginz.AsyncDb.Counter.{
  master_calls, increments, async_db_increment_lem, async_db_increment-total,
}
use nginz.AsyncDb.Race.{async_db_set_if_null_race}

-- The key 7 holds the number 41 in print.
abbrev table : ℕ → Option ℕ
table k = if 7 == k then some 51 else none

async_db_compare_and_swap_example :
    (msg : List (Field plain_aroop)) × (db' : ℕ → Option ℕ) × (async_db_compare_and_swap plain_aroop
        200 3
        (some 9)
        7
        (some 52)
        (some 51)
      ≡ some msg)
    × (master_call plain_aroop 100 table msg
        ≡ some (db', reply_of plain_aroop 100 200 3 9 1 7 (some 52)))
    × ((k : ℕ) → db' k ≡ (if 7 == k then some 52 else table k))
async_db_compare_and_swap_example =
    async_db_compare_and_swap_lem plain_aroop 100 200 3 table (some 9) 7 (some 52) (some 51) refl
      refl refl

async_db_increment_example :
    (msgs : List (List (Field plain_aroop))) × (db' : ℕ → Option ℕ) × (async_db_increment
        plain_aroop 200 3 none 7 41 1
      ≡ some msgs)
    × (master_calls plain_aroop 100 table msgs ≡ some db')
    × (db' 7 ≡ some 52)
    × ((k : ℕ) → (7 == k) ≡ false → db' k ≡ table k)
async_db_increment_example =
    async_db_increment_lem plain_aroop 100 200 3 table none 7 41 1 refl refl (omega arith)
      (omega arith) refl

async_db_increment-total_example :
    (db' : ℕ → Option ℕ) × (increments plain_aroop 100 200 7 table 41 (1 ∷ 0xffff_ffff ∷ [])
      ≡ some db')
    × (db' 7 ≡ some 51)
    × ((k : ℕ) → (7 == k) ≡ false → db' k ≡ table k)
async_db_increment-total_example =
    async_db_increment-total plain_aroop 100 200 table 7 41 (1 ∷ 0xffff_ffff ∷ []) refl
      (omega arith) (omega arith, (omega arith, tt)) refl

async_db_set_if_null_example :
    (msg msg' : List (Field plain_aroop)) × (db1 db2 : ℕ → Option ℕ) × (async_db_set_if_null
        plain_aroop 200 3
        (some 9)
        8
        5
      ≡ some msg)
    × (async_db_set_if_null plain_aroop 201 4 (some 9) 8 6 ≡ some msg')
    × (master_call plain_aroop 100 table msg
        ≡ some (db1, reply_of plain_aroop 100 200 3 9 1 8 (some 15)))
    × (master_call plain_aroop 100 db1 msg'
        ≡ some (db2, reply_of plain_aroop 100 201 4 9 0 8 (some 16)))
    × (db2 8 ≡ some 15)
async_db_set_if_null_example =
    async_db_set_if_null_race plain_aroop 100 200 201 3 4 table 9 9 8 5 6 refl refl refl refl

abbrev to_bytes : ℕ → PlainTxt
to_bytes n = plain (n ∷ []) 32

empty_message : binary_coder_reset plain_xtring (plain [] 256) ≡ some (plain (0 ∷ 2 ∷ []) 256)
unfolding binary_coder_reset
empty_message = refl

unpack_int_example :
    (m : PlainTxt) × (v : ℕ) × (pack_all plain_xtring
        (plain (0 ∷ 2 ∷ []) 256)
        (wire plain_aroop plain_xtring to_bytes (text 7 ∷ int 70000 ∷ []))
      ≡ (true, m))
    × (unpack_int plain_aroop (text 7 ∷ int 70000 ∷ []) 1 ≡ some v)
    × (binary_unpack_int plain_xtring m 1 0 ≡ some (true, v))
unfolding int_bytes
unpack_int_example =
    unpack_int-pack_all plain_aroop plain_xtring to_bytes (plain [] 256) (plain (0 ∷ 2 ∷ []) 256)
      (text 7 ∷ []) 70000 [] 0 (omega arith) empty_message (omega arith) (omega arith) (omega arith)

unpack_string_example :
    (m y : PlainTxt) × (z : ℕ) × (pack_all plain_xtring
        (plain (0 ∷ 2 ∷ []) 256)
        (wire plain_aroop plain_xtring to_bytes (int 70000 ∷ text 7 ∷ []))
      ≡ (true, m))
    × (unpack_string plain_aroop (int 70000 ∷ text 7 ∷ []) 1 ≡ some z)
    × (binary_unpack_string_helper plain_xtring m 1 1 ≡ some (true, y))
    × (y.content ≡ (to_bytes z).content)
unfolding int_bytes
unpack_string_example =
    unpack_string-pack_all plain_aroop plain_xtring to_bytes (plain [] 256) (plain (0 ∷ 2 ∷ []) 256)
      (int 70000 ∷ []) 7 [] empty_message (omega arith) (omega arith) (omega arith)
