-- ===== src/ChatNames/Login.antt =====
-- A name belongs to one user at a time.
use nginz.Prelude.{ℕ, ◌≡◌, refl, ◌∙◌, false, Option, none, some, List}
use nginz.AsyncDb.{Aroop, Field, minus_one, async_db_unset, master_call}
use nginz.AsyncDb.Requests.{reply_of, async_db_compare_and_swap_lem}
use nginz.ChatNames.{async_try_login, logoff_request}

module _ (A : Aroop) (build_name_key room_user_key room_pid_key : A.Txt → A.Txt) where
  open A use {Txt, is_empty, Table, table_get}

  -- The same section parameters, by short names.
  abbrev pub try_login : ℕ → Txt → ℕ → Option Txt → Option (Option (List (Field A)))
  try_login = async_try_login A build_name_key room_user_key room_pid_key

  abbrev pub logoff : ℕ → Txt → Option (Option (List (Field A)))
  logoff = logoff_request A build_name_key room_user_key room_pid_key

  -- A user logs in under a name that is free, another user tries the same name, and the first one
  -- logs off: the master tells the first user success and the other failure, and then the name is
  -- free again.
  pub async_try_login_lem :
      (pid p q token token' : ℕ) (db : Table) (hook hook' name : Txt)
      → is_empty name ≡ false
      → is_empty (build_name_key name) ≡ false
      → is_empty hook ≡ false
      → is_empty hook' ≡ false
      → table_get db (build_name_key name) ≡ none
      → (first second last : List (Field A)) × (db1 db2 db3 : Table) × (try_login p name token
            (some hook)
          ≡ some (some first))
        × (try_login q name token' (some hook') ≡ some (some second))
        × (logoff p name ≡ some (some last))
        × (master_call A pid db first
            ≡ some (db1, reply_of A pid p token hook 1 (build_name_key name) (some name)))
        × (master_call A pid db1 second
            ≡ some (db2, reply_of A pid q token' hook' 0 (build_name_key name) (some name)))
        × (table_get db2 (build_name_key name) ≡ some name)
        × (master_call A pid db2 last
            ≡ some (db3, reply_of A pid p minus_one A.null_hook 1 (build_name_key name) none))
        × (table_get db3 (build_name_key name) ≡ none)
  unfolding async_try_login logoff_request async_db_unset
  async_try_login_lem pid p q token token' db hook hook' name ne ke he he' free =
      let key = build_name_key name in
      let (first, db1, sent, run, get) =
        async_db_compare_and_swap_lem A pid p token db (some hook) key (some name) none ke refl
          he in
      let (second, db2, sent', run', get') =
        async_db_compare_and_swap_lem A pid q token' db1 (some hook') key (some name) none ke refl
          he' in
      let (last, db3, sent'', run'', get'') =
        async_db_compare_and_swap_lem A pid p minus_one db2 (some A.null_hook) key none none ke refl
          A.null_hook-is_empty in
      let taken : table_get db1 key ≡ some name = get key ∙ rw (free, A.equals_refl) refl in
      (
        first,
        second,
        last,
        db1,
        db2,
        db3,
        rw (ne, sent) refl,
        rw (ne, sent') refl,
        rw (ne, sent'') refl,
        run ∙ rw free refl,
        run' ∙ rw taken refl,
        get' key ∙ rw taken refl,
        run'',
        get'' key ∙ rw (A.equals_refl) refl,
      )
