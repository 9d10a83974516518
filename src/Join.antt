-- ===== src/Join.antt =====
-- apps/chat/src/join.c and apps/chat/src/hiddenjoin.c: a user joins a room. A room belongs to one
-- process; a user of another process is handed over to it with a command that names the room and
-- the user.
pub mod Transfer
mod Tests
use nginz.Prelude.{
  ℕ, Bool, not, ◌||◌, Option, none, some, List, [], ◌∷◌, ◌++◌, ltb, ◌==◌, if◌then◌else◌, ◌>>=◌,
  ◌>>◌, length,
}
use nginz.Xtring.{Xtring}
use nginz.Scanner

-- What the user is told.
pub data JoinInfo : Type 0 where
  login_first : JoinInfo
  not_available : JoinInfo
  trying : JoinInfo
  trying_at : ℕ → JoinInfo

-- What joining uses of the rest of the chat, for one connection: `S` is the state of the process.
pub record JoinHooks (X : Xtring) (S : Type 0) : Type 0 where
  pub getpid : ℕ
  pub name : S → X.Txt
  pub set_name : X.Txt → S → S
  -- chat->state |= CHAT_LOGGED_IN and chat->state |= CHAT_SOFT_QUIT
  pub set_logged_in : S → S
  pub set_soft_quit : S → S
  pub broadcast_room_leave : S → Option S
  pub broadcast_room_join : X.Txt → S → Option S
  -- event_loop_unregister_fd(chat->strm.fd)
  pub unregister : S → S
  -- chat->strm.transfer_parallel to the process, and chat->strm.send
  pub transfer_parallel : ℕ → X.Txt → S → S
  pub send : JoinInfo → S → S
  pub lazy_cleanup : S → Option S
  -- the request for the process of the room
  pub chat_room_get_pid : X.Txt → S → Option S

-- "chat/_hiddenjoin", without the space behind it
abbrev pub hiddenjoin : List ℕ
hiddenjoin =
    99 ∷ 104 ∷ 97 ∷ 116 ∷ 47 ∷ 95 ∷ 104 ∷ 105 ∷ 100 ∷ 100 ∷ 101 ∷ 110 ∷ 106 ∷ 111 ∷ 105 ∷ 110 ∷ []

module _ (X : Xtring) where
  open X use {Txt, bytes, concat, destroyed, of_bytes}

  -- The command, in a stack buffer.
  pub transfer_command : Txt → Txt → Txt → Txt
  transfer_command buffer room name =
      concat
        (concat
          (concat (concat (concat buffer (of_bytes (hiddenjoin ++ 32 ∷ []))) room)
            (of_bytes (32 ∷ [])))
          name)
        (of_bytes (10 ∷ []))

  -- The first word of the request; `none` is -1.
  pub chat_join_get_room : Txt → Option Txt
  chat_join_get_room request =
      let token = (Scanner.scanner_next_token X (of_bytes (bytes request)) destroyed).1 in
      if length (bytes token) == 0 then none else some token

  -- The second and the third word of the request.
  pub chat_hiddenjoin_get_room_and_name : Txt → Option (Txt × Txt)
  chat_hiddenjoin_get_room_and_name request =
      let first = Scanner.scanner_next_token X (of_bytes (bytes request)) destroyed in
      let room = Scanner.scanner_next_token X first.0 first.1 in
      let name = Scanner.scanner_next_token X room.0 room.1 in
      if length (bytes first.1) == 0
      then none
      else if length (bytes room.1) == 0
      then none
      else if length (bytes name.1) == 0
      then none
      else some (room.1, name.1)

  module _ {S : Type 0} (H : JoinHooks X S) where
    chat_join_transfer : Txt → Txt → ℕ → S → Option S
    unfolding transfer_command
    chat_join_transfer buffer room pid s = do
      left ← H.broadcast_room_leave s
      let off = H.unregister left
      let sent = H.transfer_parallel pid (transfer_command buffer room (H.name off)) off
      H.lazy_cleanup (H.set_soft_quit sent)

    pub chat_join_helper : Txt → Txt → ℕ → S → Option S
    unfolding chat_join_transfer
    chat_join_helper buffer room pid s =
        let transfer = chat_join_transfer buffer room pid s in
        let join = H.broadcast_room_join room s in if not (pid == H.getpid) then transfer else join

    -- The answer of the database: the room of the key, and the number in the value. `is_found`
    -- tells whether there is a connection for the token. A pid that is not positive has its high
    -- bit set or is 0.
    pub on_asyncchat_room_pid : Txt → Bool → Txt → ℕ → S → Option S
    unfolding chat_join_helper
    on_asyncchat_room_pid buffer is_found room pid s =
        let join = chat_join_helper buffer room pid (H.send (trying_at pid) s) in
        if not is_found
        then some s
        else if pid == 0 || not (ltb pid 0x8000_0000) || length (bytes room) == 0
        then some (H.send not_available s)
        else join

    look_up : Option Txt → S → Option S
    look_up none s = some (H.send not_available s)
    look_up (some room) s = do asked ← H.chat_room_get_pid room s; some (H.send trying asked)

    -- The command of the user, with the request behind its name.
    pub chat_join_plug : Txt → S → Option S
    unfolding chat_join_get_room look_up
    chat_join_plug request s =
        let look = look_up (chat_join_get_room request) s in
        if length (bytes (H.name s)) == 0
        then some (H.send login_first s)
        else if length (bytes request) == 0
        then some (H.send not_available s)
        else look

    enter : Option (Txt × Txt) → S → Option S
    enter none s = some s
    enter (some (room, name)) s = H.broadcast_room_join room (H.set_name name s)

    -- The command that comes with a connection that is handed over.
    pub chat_hiddenjoin_plug : Txt → S → Option S
    unfolding chat_hiddenjoin_get_room_and_name enter
    chat_hiddenjoin_plug request s =
        let logged = H.set_logged_in s in
        let go = enter (chat_hiddenjoin_get_room_and_name request) logged in
        if length (bytes request) == 0 then some logged else go
