-- ===== src/AsyncDb.antt =====
-- base/src/parallel/async_request.c, db/src/async_db.c and db/src/async_db_master.c: workers send
-- requests to the master process, which keeps the one key-value table and replies.
-- A message is the list of the fields that are packed into it, which BinaryCoder lays out as
-- bytes. A text argument that is NULL is `none`.
mod Types
pub mod Requests
mod Counter
mod Race
mod Wire
pub mod Plain
mod Tests
pub use Types.*
use nginz.Prelude.{
  ℕ, zero, suc, ◌+◌, ◌*◌, ◌%◌, Bool, true, false, not, Option, none, some, List, [], ◌∷◌, ◌==◌,
  if◌then◌else◌, assert, ◌>>=◌, ◌>>◌,
}
use nginz.BinaryCoder.Integers.{int_value}

abbrev pub int_of_bool : Bool → ℕ
int_of_bool true = 1
int_of_bool false = 0

-- The 32-bit pattern of -1, the token of the requests that nobody waits for.
abbrev pub minus_one : ℕ
minus_one = 0xffff_ffff

abbrev pub plus : ℕ → ℕ → ℕ
plus intval increment = (intval + increment) % 0x1_0000_0000

module _ (A : Aroop) where
  open A use {
    Txt, empty, is_empty, equals, print_int, null_hook, compare_and_set_app, set_if_null_app,
    unset_app, get_app, Table, table_get, table_set,
  }

  -- `if(args)while(*args)`: the arguments up to the first NULL.
  abbrev pub pack_args : List (Option Txt) → List (Field A)
  pack_args [] = []
  pack_args (none ∷ args) = []
  pack_args (some x ∷ args) = text x ∷ pack_args args

  abbrev pub async_pm_call_master : ℕ → ℕ → Option Txt → Txt → List (Option Txt) → List (Field A)
  async_pm_call_master pid cb_token none master_hook args =
      int pid ∷ text master_hook ∷ int cb_token ∷ text null_hook ∷ pack_args args
  async_pm_call_master pid cb_token (some worker_hook) master_hook args =
      int pid ∷ text master_hook ∷ int cb_token ∷ text worker_hook ∷ pack_args args

  abbrev pub async_pm_reply_worker :
      ℕ → ℕ → ℕ → Txt → ℕ → List (Option Txt) → Option (List (Sent A))
  async_pm_reply_worker pid destpid cb_token worker_hook success args = do
    assert (not (is_empty worker_hook))
    some (
        if equals worker_hook null_hook
        then []
        else record {
          dest = destpid;
          msg = int pid ∷ text worker_hook ∷ int cb_token ∷ int success ∷ pack_args args;
        }
          ∷ [])

  -- `&null_hook` in place of NULL
  abbrev pub or_null_hook : Option Txt → Txt
  or_null_hook none = null_hook
  or_null_hook (some cb_hook) = cb_hook

  abbrev pub swap_app : Option Txt → Option Txt → Txt
  swap_app newval (some oldval) = compare_and_set_app
  swap_app (some newval) none = set_if_null_app
  swap_app none none = unset_app

  -- `if(oldval) aroop_assert(!aroop_txt_is_empty_magical(newval))`
  abbrev pub is_swap : Option Txt → Option Txt → Bool
  is_swap newval none = true
  is_swap none (some oldval) = false
  is_swap (some newval) (some oldval) = not (is_empty newval)

  -- The requests of a worker are the messages that they send to the master.
  unfoldable pub async_db_compare_and_swap :
      ℕ → ℕ → Option Txt → Txt → Option Txt → Option Txt → Option (List (Field A))
  async_db_compare_and_swap pid cb_token cb_hook key newval oldval = do
    assert (not (is_empty key))
    assert (is_swap newval oldval)
    some (
        async_pm_call_master pid cb_token (some (or_null_hook cb_hook)) (swap_app newval oldval)
          (some key ∷ newval ∷ oldval ∷ none ∷ []))

  unfoldable pub async_db_unset : ℕ → ℕ → Option Txt → Txt → Option (List (Field A))
  async_db_unset pid cb_token cb_hook key =
      async_db_compare_and_swap pid cb_token (some (or_null_hook cb_hook)) key none none

  pub async_db_set_if_null : ℕ → ℕ → Option Txt → Txt → ℕ → Option (List (Field A))
  async_db_set_if_null pid cb_token cb_hook key intval =
      async_db_compare_and_swap pid cb_token (some (or_null_hook cb_hook)) key
        (some (print_int intval)) none

  pub async_db_increment : ℕ → ℕ → Option Txt → Txt → ℕ → ℕ → Option (List (List (Field A)))
  unfolding async_db_unset async_db_set_if_null
  async_db_increment pid cb_token cb_hook key intval increment =
      let swap =
        async_db_compare_and_swap pid cb_token (some (or_null_hook cb_hook)) key
          (some (print_int (plus intval increment))) (some (print_int intval)) in
      if plus intval increment == 0
      then (do unset ← async_db_unset pid minus_one none key; some (unset ∷ []))
      else if intval == 0
      then (do
        first ← async_db_set_if_null pid minus_one none key increment
        second ← swap
        some (first ∷ second ∷ []))
      else (do only ← swap; some (only ∷ []))

  pub async_db_get : ℕ → ℕ → Option Txt → Txt → Option (List (Field A))
  async_db_get pid cb_token cb_hook key = do
    assert (not (is_empty key))
    some (
        async_pm_call_master pid cb_token (some (or_null_hook cb_hook)) get_app
          (some key ∷ none ∷ []))

  -- binary_unpack_int and binary_unpack_string on the fields: a field of the other type fails an
  -- assertion, and behind the last field the output is a destroyed text, as an integer 0. The 8-bit
  -- offset and the length checks of the coder are left to BinaryCoder: this is what the coder gives
  -- for a field whose header is below offset 256.
  abbrev pub unpack_int : List (Field A) → ℕ → Option ℕ
  unpack_int [] n = some 0
  unpack_int (int w ∷ msg) zero = some (int_value w)
  unpack_int (text x ∷ msg) zero = none
  unpack_int (f ∷ msg) (suc n) = unpack_int msg n

  abbrev pub unpack_string : List (Field A) → ℕ → Option Txt
  unpack_string [] n = some empty
  unpack_string (int w ∷ msg) zero = none
  unpack_string (text x ∷ msg) zero = some x
  unpack_string (f ∷ msg) (suc n) = unpack_string msg n

  abbrev pub async_db_op_reply : ℕ → ℕ → ℕ → Txt → ℕ → Txt → Option Txt → Option (List (Sent A))
  async_db_op_reply pid destpid cb_token cb_hook success key newval =
      async_pm_reply_worker pid destpid cb_token (if is_empty cb_hook then null_hook else cb_hook)
        success (some key ∷ newval ∷ none ∷ [])

  -- `(oldval == NULL && expval == NULL) || (... && aroop_txt_equals(expval, oldval))`
  abbrev pub is_expected : Option Txt → Option Txt → Bool
  is_expected none none = true
  is_expected none (some expval) = false
  is_expected (some oldval) none = false
  is_expected (some oldval) (some expval) = equals expval oldval

  -- The result 0 of the source is `true` here, as `success` has it.
  pub async_db_op_helper : Table → Txt → Option Txt → Option Txt → Bool × Table
  async_db_op_helper db key newval expval = if is_empty key then (false, db) else elim newval [
    | none ↦ (true, table_set db key none)
    | some x ↦
        if not (is_expected (table_get db key) expval)
        then (false, db)
        else (true, table_set db key (some x))
  ]

  -- A hook of the master: the table and the replies after a request.
  pub async_db_cas_hook : ℕ → Table → List (Field A) → Option (Table × List (Sent A))
  unfolding async_db_op_helper
  async_db_cas_hook pid db bin = do
    srcpid ← unpack_int bin 0
    cb_token ← unpack_int bin 2
    cb_hook ← unpack_string bin 3
    key ← unpack_string bin 4
    newval ← unpack_string bin 5
    expval ← unpack_string bin 6
    let (success, db') = async_db_op_helper db key (some newval) (some expval)
    replies ← async_db_op_reply pid srcpid cb_token cb_hook (int_of_bool success) key (some newval)
    some (db', replies)

  pub async_db_set_if_null_hook : ℕ → Table → List (Field A) → Option (Table × List (Sent A))
  unfolding async_db_op_helper
  async_db_set_if_null_hook pid db bin = do
    srcpid ← unpack_int bin 0
    cb_token ← unpack_int bin 2
    cb_hook ← unpack_string bin 3
    key ← unpack_string bin 4
    newval ← unpack_string bin 5
    let (success, db') = async_db_op_helper db key (some newval) none
    replies ← async_db_op_reply pid srcpid cb_token cb_hook (int_of_bool success) key (some newval)
    some (db', replies)

  pub async_db_unset_hook : ℕ → Table → List (Field A) → Option (Table × List (Sent A))
  unfolding async_db_op_helper
  async_db_unset_hook pid db bin = do
    srcpid ← unpack_int bin 0
    cb_token ← unpack_int bin 2
    cb_hook ← unpack_string bin 3
    key ← unpack_string bin 4
    let (success, db') = async_db_op_helper db key none none
    replies ← async_db_op_reply pid srcpid cb_token cb_hook (int_of_bool success) key none
    some (db', replies)

  pub async_db_get_hook : ℕ → Table → List (Field A) → Option (Table × List (Sent A))
  async_db_get_hook pid db bin = do
    srcpid ← unpack_int bin 0
    cb_token ← unpack_int bin 2
    cb_hook ← unpack_string bin 3
    key ← unpack_string bin 4
    replies ← async_db_op_reply pid srcpid cb_token cb_hook 1 key (table_get db key)
    some (db, replies)

  -- The hooks that async_db_master_init plugs in, found by the command of a message. Any other
  -- command finds no plugin of this module.
  pub run_hook : Txt → ℕ → Table → List (Field A) → Option (Table × List (Sent A))
  unfolding async_db_cas_hook async_db_set_if_null_hook async_db_unset_hook async_db_get_hook
  run_hook command pid db bin =
      if equals command compare_and_set_app
      then async_db_cas_hook pid db bin
      else if equals command set_if_null_app
      then async_db_set_if_null_hook pid db bin
      else if equals command unset_app
      then async_db_unset_hook pid db bin
      else if equals command get_app
      then async_db_get_hook pid db bin
      else some (db, [])

  pub master_call : ℕ → Table → List (Field A) → Option (Table × List (Sent A))
  unfolding run_hook
  master_call pid db bin = do command ← unpack_string bin 1; run_hook command pid db bin
