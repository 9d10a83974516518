-- ===== src/Welcome.antt =====
-- apps/chat/src/welcome.c: the dialogue of a log-in. The text to send is kept in one static buffer
-- for all connections of the process.
mod Dialogue
mod Tests
use nginz.Prelude.{
  ℕ, Bool, true, false, not, ◌||◌, Option, none, some, List, ltb, ◌==◌, if◌then◌else◌, assert,
  ◌>>=◌, ◌>>◌, length, Array, update,
}
use nginz.Xtring.{Xtring}
use nginz.Scanner
use nginz.Chat.{State}

abbrev pub nginz_max_chat_user_name_size : ℕ
nginz_max_chat_user_name_size = 32

-- What `greet_on_login` holds, and the question that is asked first.
pub data Greeting : Type 0 where
  nothing : Greeting
  login_name : Greeting
  welcome : List ℕ → Greeting
  name_taken : Greeting
  invalid_name : Greeting
  too_big : Greeting

-- A connection; `answers_login` tells that its response callback is `on_asyncchat_login`.
pub record Guest : Type 0 where
  pub name : List ℕ
  pub state : State
  pub answers_login : Bool

-- The guests of the process by token, and the static buffer.
pub record Lobby : Type 0 where
  pub guests : Array Guest
  pub greet_on_login : Greeting

-- CHAT_CONNECTED: no bit is set.
abbrev pub is_connected : State → Bool
is_connected x = not (x.logged_in || x.in_room || x.quit || x.soft_quit || x.zombie)

abbrev pub is_nothing : Greeting → Bool
is_nothing nothing = true
is_nothing _ = false

abbrev pub with_greeting : Greeting → Lobby → Lobby
with_greeting g s = record s { greet_on_login = g }

abbrev pub with_guest : ℕ → Guest → Lobby → Lobby
with_guest c x s = record s { guests = update s.guests c x }

-- `send` is `chat->strm.send`, and `try_login` is `async_try_login` for a name and a token.
module _ {W : Type 0} (send : ℕ → Greeting → W → W) (try_login : List ℕ → ℕ → W → W) where
  send_greeting : ℕ → Lobby × W → Lobby × W
  send_greeting c (s, w) =
      (s, (if is_nothing s.greet_on_login then w else send c s.greet_on_login w))

  pub chat_welcome_plug : ℕ → Lobby × W → Option (Lobby × W)
  chat_welcome_plug c (s, w) = do
    assert (is_connected (s.guests c).state)
    some (with_guest c (record (s.guests c) { answers_login = true }) s, send c login_name w)

  -- The name is tried where it is neither empty nor too long. The buffer is not reset for that.
  check_name : ℕ → List ℕ → Lobby × W → Lobby × W
  check_name c name (s, w) =
      if length name == 0
      then (with_greeting invalid_name s, w)
      else if not (ltb (length name) nginz_max_chat_user_name_size)
      then (with_greeting too_big s, w)
      else (s, try_login name c w)

  pub on_asyncchat_login : (X : Xtring) → ℕ → X.Txt → Lobby × W → Option (Lobby × W)
  unfolding check_name send_greeting
  on_asyncchat_login X c answer s =
      let name = (Scanner.scanner_next_token X answer X.destroyed).1 in
      let ask : Option (Lobby × W) = (do
        assert (is_connected (s.0.guests c).state)
        some (send_greeting c (check_name c (X.bytes name) s))) in
      if length (X.bytes answer) == 0 then some s else ask

  greet_user : Bool → List ℕ → ℕ → Lobby → Lobby
  greet_user true name c s = with_greeting (welcome name) (
      with_guest c
        (record (s.guests c) {
          name = name;
          answers_login = false;
          state = record (s.guests c).state { logged_in = true };
        })
        s)
  greet_user false name c s = with_greeting name_taken s

  answer_login : Option ℕ → Bool → List ℕ → Lobby × W → Lobby × W
  unfolding greet_user send_greeting
  answer_login none success name s = s
  answer_login (some c) success name (s, w) = send_greeting c (greet_user success name c s, w)

  -- The answer of the database. `get` is `chat_api_get()->get`, which finds no connection that is
  -- about to end.
  pub on_asyncchat_login_hook : (ℕ → Lobby → Option ℕ) → ℕ → Bool → List ℕ → Lobby × W → Lobby × W
  unfolding answer_login
  on_asyncchat_login_hook get cb_token success name s =
      let answered = answer_login (get cb_token s.0) success name s in
      if length name == 0 then s else answered
