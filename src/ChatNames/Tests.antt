-- ===== src/ChatNames/Tests.antt =====
-- Two users who want one name.
use nginz.Prelude.{ℕ, ◌+◌, ◌≡◌, refl, Option, none, some, List}
use nginz.AsyncDb.{Field, minus_one, master_call}
use nginz.AsyncDb.Plain.{plain_aroop}
use nginz.AsyncDb.Requests.{reply_of}
use nginz.ChatNames.Login.{try_login, logoff, async_try_login_lem}

abbrev key : ℕ → ℕ
key n = n + 1000

abbrev nobody : ℕ → Option ℕ
nobody k = none

async_try_login_example :
    (first second last : List (Field plain_aroop)) × (db1 db2 db3 : ℕ → Option ℕ) × (try_login
        plain_aroop key key key 200 30 3
        (some 9)
      ≡ some (some first))
    × (try_login plain_aroop key key key 201 30 4 (some 8) ≡ some (some second))
    × (logoff plain_aroop key key key 200 30 ≡ some (some last))
    × (master_call plain_aroop 100 nobody first
        ≡ some (db1, reply_of plain_aroop 100 200 3 9 1 1030 (some 30)))
    × (master_call plain_aroop 100 db1 second
        ≡ some (db2, reply_of plain_aroop 100 201 4 8 0 1030 (some 30)))
    × (db2 1030 ≡ some 30)
    × (master_call plain_aroop 100 db2 last
        ≡ some (db3, reply_of plain_aroop 100 200 minus_one 1 1 1030 none))
    × (db3 1030 ≡ none)
async_try_login_example =
    async_try_login_lem plain_aroop key key key 100 200 201 3 4 nobody 9 8 30 refl refl refl refl
      refl
