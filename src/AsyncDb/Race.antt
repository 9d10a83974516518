-- ===== src/AsyncDb/Race.antt =====
-- Two workers that claim one key, as two users that log in under one name do.
use nginz.Prelude.{ℕ, ◌≡◌, refl, ◌∙◌, false, none, some, List}
use nginz.AsyncDb.{Aroop, Field, async_db_set_if_null, master_call}
use nginz.AsyncDb.Requests.{reply_of, async_db_compare_and_swap_lem}

module _ (A : Aroop) where
  open A use {Txt, is_empty, equals, print_int, Table, table_get}

  -- Two workers ask to set a key that the table does not hold. When the master takes the one
  -- request and then the other, the first reply tells success and the second failure, and the
  -- table holds the value of the first.
  pub async_db_set_if_null_race :
      (pid p q : ℕ) (token token' : ℕ) (db : Table) (cb_hook cb_hook' key : Txt) (v w : ℕ)
      → is_empty key ≡ false
      → is_empty cb_hook ≡ false
      → is_empty cb_hook' ≡ false
      → table_get db key ≡ none
      → (msg msg' : List (Field A)) × (db1 db2 : Table) × (async_db_set_if_null A p token
            (some cb_hook)
            key
            v
          ≡ some msg)
        × (async_db_set_if_null A q token' (some cb_hook') key w ≡ some msg')
        × (master_call A pid db msg
            ≡ some (db1, reply_of A pid p token cb_hook 1 key (some (print_int v))))
        × (master_call A pid db1 msg'
            ≡ some (db2, reply_of A pid q token' cb_hook' 0 key (some (print_int w))))
        × (table_get db2 key ≡ some (print_int v))
  unfolding async_db_set_if_null
  async_db_set_if_null_race pid p q token token' db cb_hook cb_hook' key v w ke he he' free =
      let (msg, db1, sent, run, get) =
        async_db_compare_and_swap_lem A pid p token db (some cb_hook) key (some (print_int v)) none
          ke refl he in
      let (msg', db2, sent', run', get') =
        async_db_compare_and_swap_lem A pid q token' db1 (some cb_hook') key (some (print_int w))
          none ke refl he' in
      let first : table_get db1 key ≡ some (print_int v) =
        get key ∙ rw (free, A.equals_refl) refl in
      (
        msg,
        msg',
        db1,
        db2,
        sent,
        sent',
        run ∙ rw free refl,
        run' ∙ rw first refl,
        get' key ∙ rw first refl,
      )
