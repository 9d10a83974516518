-- ===== src/AsyncDb/Requests.antt =====
-- What a request of a worker does to the table of the master.
use nginz.Prelude.{
  ℕ, ◌≡◌, refl, ◌∙◌, inl, inr, Bool, true, false, ◌&&◌, Option, none, some, List, [], ◌∷◌,
  if◌then◌else◌, Bool-cases,
}
use nginz.BinaryCoder.Integers.{int_value}
use nginz.AsyncDb.{
  Aroop, Field, int, text, Sent, pack_args, or_null_hook, is_swap, is_expected, int_of_bool,
  async_db_compare_and_swap, async_db_op_helper, async_db_cas_hook, async_db_set_if_null_hook,
  async_db_unset_hook, async_db_get_hook, run_hook, master_call, async_db_get,
}

module _ (A : Aroop) where
  open A use {
    Txt, empty, is_empty, equals, print_int, null_hook, compare_and_set_app, set_if_null_app,
    unset_app, get_app, Table, table_get, table_set,
  }

  -- What is expected, and what the table holds: nothing and nothing, or two equal texts.
  abbrev pub agrees : Option Txt → Option Txt → Bool
  agrees none none = true
  agrees none (some held) = false
  agrees (some oldval) none = false
  agrees (some oldval) (some held) = equals oldval held

  is_expected_lem : (oldval held : Option Txt) → is_expected A held oldval ≡ agrees oldval held
  is_expected_lem none none = refl
  is_expected_lem none (some held) = refl
  is_expected_lem (some oldval) none = refl
  is_expected_lem (some oldval) (some held) = refl

  -- Whether a request finds what it expects. A removal takes whatever there is.
  abbrev pub wins : Table → Txt → Option Txt → Option Txt → Bool
  wins db key none oldval = true
  wins db key (some newval) oldval = agrees oldval (table_get db key)

  -- The reply: none to the null hook, else one with the result and the arguments.
  abbrev pub reply_of : ℕ → ℕ → ℕ → Txt → ℕ → Txt → Option Txt → List (Sent A)
  reply_of pid srcpid cb_token cb_hook success key val =
      if equals cb_hook null_hook
      then []
      else record {
        dest = int_value srcpid;
        msg =
            int pid
            ∷ text cb_hook
            ∷ int (int_value cb_token)
            ∷ int success
            ∷ pack_args A (some key ∷ val ∷ none ∷ []);
      }
        ∷ []

  op_helper-wins :
      (db : Table) (key : Txt) (newval oldval : Option Txt)
      → is_empty key ≡ false
      → (async_db_op_helper A db key newval oldval).0 ≡ wins db key newval oldval
  unfolding async_db_op_helper
  op_helper-wins db key none oldval e = rw e refl
  op_helper-wins db key (some x) oldval e = elim (Bool-cases (agrees oldval (table_get db key))) [
    | inl c ↦ rw (e, is_expected_lem oldval (table_get db key), c) refl
    | inr c ↦ rw (e, is_expected_lem oldval (table_get db key), c) refl
  ]

  op_helper-get :
      (db : Table) (key k : Txt) (newval oldval : Option Txt)
      → is_empty key ≡ false
      → table_get (async_db_op_helper A db key newval oldval).1 k
        ≡ (if wins db key newval oldval && equals key k then newval else table_get db k)
  unfolding async_db_op_helper
  op_helper-get db key k none oldval e = rw e (A.table_get-table_set db key k none)
  op_helper-get db key k (some x) oldval e = elim (Bool-cases (agrees oldval (table_get db key))) [
    | inl c ↦
        rw (e, is_expected_lem oldval (table_get db key), c)
          (A.table_get-table_set db key k (some x))
    | inr c ↦ rw (e, is_expected_lem oldval (table_get db key), c) refl
  ]

  cas_hook_lem :
      (pid srcpid cb_token : ℕ) (db : Table) (cb_hook key newval oldval : Txt)
      → is_empty cb_hook ≡ false
      → let msg : List (Field A) =
          int srcpid
          ∷ text compare_and_set_app
          ∷ int cb_token
          ∷ text cb_hook
          ∷ text key
          ∷ text newval
          ∷ text oldval
          ∷ [] in
        let (ok, db') = async_db_op_helper A db key (some newval) (some oldval) in
        master_call A pid db msg
        ≡ some (db', reply_of pid srcpid cb_token cb_hook (int_of_bool ok) key (some newval))
  unfolding master_call run_hook async_db_cas_hook
  cas_hook_lem pid srcpid cb_token db cb_hook key newval oldval e = rw (A.equals_refl, e, e) refl

  set_if_null_hook_lem :
      (pid srcpid cb_token : ℕ) (db : Table) (cb_hook key newval : Txt)
      → is_empty cb_hook ≡ false
      → let msg : List (Field A) =
          int srcpid
          ∷ text set_if_null_app
          ∷ int cb_token
          ∷ text cb_hook
          ∷ text key
          ∷ text newval
          ∷ [] in
        let (ok, db') = async_db_op_helper A db key (some newval) none in
        master_call A pid db msg
        ≡ some (db', reply_of pid srcpid cb_token cb_hook (int_of_bool ok) key (some newval))
  unfolding master_call run_hook async_db_set_if_null_hook
  set_if_null_hook_lem pid srcpid cb_token db cb_hook key newval e =
      rw (A.apps_differ.0, A.equals_refl, e, e) refl

  unset_hook_lem :
      (pid srcpid cb_token : ℕ) (db : Table) (cb_hook key : Txt)
      → is_empty cb_hook ≡ false
      → let msg : List (Field A) =
          int srcpid ∷ text unset_app ∷ int cb_token ∷ text cb_hook ∷ text key ∷ [] in
        let (ok, db') = async_db_op_helper A db key none none in
        master_call A pid db msg
        ≡ some (db', reply_of pid srcpid cb_token cb_hook (int_of_bool ok) key none)
  unfolding master_call run_hook async_db_unset_hook
  unset_hook_lem pid srcpid cb_token db cb_hook key e =
      rw (A.apps_differ.1, A.apps_differ.2, A.equals_refl, e, e) refl

  -- A request with a key that is not empty, with a new value that is not empty where an old one is
  -- expected, and with a hook that is not empty passes the assertions of the worker. The master
  -- that receives it writes the new value exactly when the table holds nothing where none is
  -- expected, or a text equal to the old value where one is; with no new value it removes the key,
  -- whatever there is. It leaves every other key as it is, and replies to the source with the
  -- result, but not to the null hook.
  pub async_db_compare_and_swap_lem :
      (pid srcpid cb_token : ℕ) (db : Table) (cb_hook : Option Txt) (key : Txt)
      (newval oldval : Option Txt)
      → is_empty key ≡ false
      → is_swap A newval oldval ≡ true
      → is_empty (or_null_hook A cb_hook) ≡ false
      → (msg : List (Field A)) × (db' : Table) × (async_db_compare_and_swap A srcpid cb_token
            cb_hook key newval oldval
          ≡ some msg)
        × (master_call A pid db msg
            ≡ some (
              db',
              reply_of pid srcpid cb_token
                  (or_null_hook A cb_hook)
                  (int_of_bool (wins db key newval oldval))
                  key
                  newval,
            ))
        × ((k : Txt)
            → table_get db' k
              ≡ (if wins db key newval oldval && equals key k then newval else table_get db k))
  unfolding async_db_compare_and_swap
  async_db_compare_and_swap_lem pid srcpid cb_token db cb_hook key none none ke se he =
      let h = or_null_hook A cb_hook in
      (
        int srcpid ∷ text unset_app ∷ int cb_token ∷ text h ∷ text key ∷ [],
        (async_db_op_helper A db key none none).1,
        rw ke refl,
        unset_hook_lem pid srcpid cb_token db h key he
            ∙ rw (op_helper-wins db key none none ke) refl,
        λ k. op_helper-get db key k none none ke,
      )
  async_db_compare_and_swap_lem pid srcpid cb_token db cb_hook key none (some o) ke se he = cc
  async_db_compare_and_swap_lem pid srcpid cb_token db cb_hook key (some x) none ke se he =
      let h = or_null_hook A cb_hook in
      (
        int srcpid ∷ text set_if_null_app ∷ int cb_token ∷ text h ∷ text key ∷ text x ∷ [],
        (async_db_op_helper A db key (some x) none).1,
        rw ke refl,
        set_if_null_hook_lem pid srcpid cb_token db h key x he
            ∙ rw (op_helper-wins db key (some x) none ke) refl,
        λ k. op_helper-get db key k (some x) none ke,
      )
  async_db_compare_and_swap_lem pid srcpid cb_token db cb_hook key (some x) (some o) ke se he =
      let h = or_null_hook A cb_hook in
      (
        int srcpid
            ∷ text compare_and_set_app
            ∷ int cb_token
            ∷ text h
            ∷ text key
            ∷ text x
            ∷ text o
            ∷ [],
        (async_db_op_helper A db key (some x) (some o)).1,
        rw (ke, se) refl,
        cas_hook_lem pid srcpid cb_token db h key x o he
            ∙ rw (op_helper-wins db key (some x) (some o) ke) refl,
        λ k. op_helper-get db key k (some x) (some o) ke,
      )

  -- A request for a key that is not empty leaves the table as it is, and the reply carries the
  -- value that the table holds, or none.
  pub async_db_get_lem :
      (pid srcpid cb_token : ℕ) (db : Table) (cb_hook : Option Txt) (key : Txt)
      → is_empty key ≡ false
      → is_empty (or_null_hook A cb_hook) ≡ false
      → (msg : List (Field A)) × (async_db_get A srcpid cb_token cb_hook key ≡ some msg)
        × (master_call A pid db msg
            ≡ some (
              db,
              reply_of pid srcpid cb_token (or_null_hook A cb_hook) 1 key (table_get db key),
            ))
  unfolding async_db_get master_call run_hook async_db_get_hook
  async_db_get_lem pid srcpid cb_token db cb_hook key ke he = (
    int srcpid ∷ text get_app ∷ int cb_token ∷ text (or_null_hook A cb_hook) ∷ text key ∷ [],
    rw ke refl,
    rw (A.apps_differ.3, A.apps_differ.4, A.apps_differ.5, A.equals_refl, he, he) refl,
  )
