-- ===== src/ChatNames.antt =====
-- The requests that the chat makes of the database: the log-in and log-off of apps/chat/src/user.c,
-- and the counts and owners of rooms of apps/chat/src/room.c. The keys are texts that aroop puts
-- together from a prefix and a name, a parameter here.
mod Login
mod Tests
use nginz.Prelude.{ℕ, Option, none, some, List, [], if◌then◌else◌, ◌>>=◌, ◌>>◌}
use nginz.AsyncDb.{
  Aroop, Field, minus_one, or_null_hook, async_db_compare_and_swap, async_db_unset,
  async_db_increment, async_db_get,
}

module _ (A : Aroop) (build_name_key room_user_key room_pid_key : A.Txt → A.Txt) where
  open A use {Txt, is_empty}

  -- `some none` is the result -1, with no request.
  pub async_try_login : ℕ → Txt → ℕ → Option Txt → Option (Option (List (Field A)))
  async_try_login pid name token response_hook = if is_empty name then some none else do
    msg ← async_db_compare_and_swap A pid token response_hook (build_name_key name) (some name) none
    some (some msg)

  -- The request of `logoff_user`.
  pub logoff_request : ℕ → Txt → Option (Option (List (Field A)))
  logoff_request pid name =
      if is_empty name
      then some none
      else do msg ← async_db_unset A pid minus_one none (build_name_key name); some (some msg)

  pub chat_room_set_user_count : ℕ → Txt → ℕ → ℕ → Option (List (List (Field A)))
  chat_room_set_user_count pid my_room user_count increment =
      if is_empty my_room
      then some []
      else async_db_increment A pid minus_one none (room_user_key my_room) user_count increment

  pub chat_room_get_pid : ℕ → Txt → ℕ → Option Txt → Option (Option (List (Field A)))
  chat_room_get_pid pid my_room token callback_hook =
      if is_empty my_room
      then some none
      else do msg ← async_db_get A pid token callback_hook (room_pid_key my_room); some (some msg)
