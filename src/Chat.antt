-- ===== src/Chat.antt =====
-- apps/chat/src/broadcast.c, with the sending and closing of apps/chat/src/chat_factory.c,
-- apps/chat/src/quit.c and the log-off of apps/chat/src/user.c: connections, rooms, and who is
-- told what. A connection and a room are named
-- by numbers. What a stream does with a text is a parameter, as are the calls to the database.
mod Types
mod Rooms
mod Membership
mod Talk
mod Join
mod Quit
mod Tests
pub use Types.*
use nginz.Prelude.{
  ℕ, ◌+◌, ◌-◌, ◌*◌, Bool, true, false, not, ◌||◌, Option, none, some, List, [], ◌∷◌, ◌++◌, leb,
  ◌==◌, if◌then◌else◌, assert, ◌>>=◌, ◌>>◌, length, update, find_first,
}

-- The first entry of the connection goes out of the list.
pub remove : ℕ → List ℕ → List ℕ
remove c [] = []
remove c (d ∷ l) = let rest = remove c l in if c == d then l else d ∷ rest

-- What is left of the connection in its room: the entry of the list and the fields.
pub take_out : ℕ → ℕ → Chats → Chats
take_out c r s =
    let x = s.connections c in
    with_connection c
      (record x {
        callback_data = none;
        is_broadcast = false;
        state = record x.state { in_room = false };
      })
      (with_users r (remove c (s.rooms r).user_list) s)

-- The 32-bit pattern of the increment -1
abbrev pub minus_one : ℕ
minus_one = 0xffff_ffff

-- `opp_search` by the hash of the name: the first room with that hash.
pub find_room : (ℕ → ℕ) → ℕ → Chats → Option ℕ
find_room hash name s = find_first (λ r. hash (s.rooms r).name == hash name) s.room_count

pub put_in : ℕ → ℕ → Chats → Chats
put_in c r s =
    let x = s.connections c in
    with_connection c
      (record x {
        callback_data = some r;
        is_broadcast = true;
        state = record x.state { in_room = true };
      })
      (with_users r ((s.rooms r).user_list ++ c ∷ []) s)

-- A room of that name is not added again.
unfoldable pub broadcast_add_room : ℕ → Chats → Chats
broadcast_add_room name s = elim (find_first (λ r. (s.rooms r).name == name) s.room_count) [
  | none ↦ record s {
    rooms = update s.rooms s.room_count (record { name = name; user_list = [] });
    room_count = s.room_count + 1;
  }
  | some r ↦ s
]

-- `none` is NULL: no connection that is about to end is found.
pub chat_get : ℕ → Chats → Option ℕ
chat_get token s = if is_gone (s.connections token).state then none else some token

-- `real_send` tells whether the stream has an error afterwards; `set_user_count` is
-- `chat_room_set_user_count`, for a room name, the count so far and the increment.
module _ {W : Type 0} (real_send : ℕ → Notice → W → Bool × W)
    (set_user_count : ℕ → ℕ → ℕ → W → W) where
  -- The `Bool` is the result, `true` for what is not -1.
  pub default_chat_send : ℕ → Notice → Chats × W → Bool × (Chats × W)
  default_chat_send c msg (s, w) =
      let (error, w') = real_send c msg w in
      let x = (s.connections c).state in
      if is_gone x
      then (false, (s, w))
      else (true, ((if error then with_state c (record x { soft_quit = true }) s else s), w'))

  -- The loop over the users of a room, less the one that is omitted.
  send_to_users : Option ℕ → List ℕ → Notice → Chats × W → Chats × W
  unfolding default_chat_send
  send_to_users omit [] msg s = s
  send_to_users omit (c ∷ l) msg s =
      let skip = send_to_users omit l msg s in
      let sent = send_to_users omit l msg (default_chat_send c msg s).1 in
      if is_skipped omit c then skip else sent

  pub broadcast_callback_helper : Option ℕ → ℕ → Notice → Chats × W → Chats × W
  unfolding send_to_users
  broadcast_callback_helper omit r msg s = send_to_users omit (s.0.rooms r).user_list msg s

  -- The message of a user to the others in the room; `false` is -1.
  pub broadcast_callback : ℕ → ℕ → Chats × W → Bool × (Chats × W)
  unfolding broadcast_callback_helper
  broadcast_callback c msg s = elim ((s.0.connections c).callback_data) [
    | none ↦ (false, s)
    | some r ↦ (true, broadcast_callback_helper (some c) r (said (s.0.connections c).name msg) s)
  ]

  -- The first user of that name in the room gets the text.
  first_named : ℕ → Chats → List ℕ → Option ℕ
  first_named to s [] = none
  first_named to s (c ∷ l) =
      let rest = first_named to s l in if to == (s.connections c).name then some c else rest

  deliver : ℕ → Option ℕ → Chats × W → Chats × W
  deliver msg none s = s
  deliver msg (some c) s = (default_chat_send c (private_text msg) s).1

  pub broadcast_private_message : ℕ → ℕ → ℕ → Chats × W → Chats × W
  unfolding first_named deliver
  broadcast_private_message c to msg s = elim ((s.0.connections c).callback_data) [
    | none ↦ s
    | some r ↦ deliver msg (first_named to s.0 (s.0.rooms r).user_list) s
  ]

  -- The list of the users, shown to one of them.
  show_users : ℕ → List ℕ → Chats × W → Chats × W
  unfolding default_chat_send
  show_users c [] s = s
  show_users c (other ∷ l) s =
      show_users c l (default_chat_send c (user_line (s.0.connections other).name (c == other)) s).1

  pub broadcast_room_greet : ℕ → ℕ → Chats × W → Chats × W
  unfolding show_users default_chat_send broadcast_callback_helper
  broadcast_room_greet c r s =
      let s1 = (default_chat_send c (entering (s.0.rooms r).name) s).1 in
      let s2 = show_users c (s1.0.rooms r).user_list s1 in
      let s3 = (default_chat_send c end_of_list s2).1 in
      broadcast_callback_helper (some c) r (user_joined (s3.0.connections c).name) s3

  pub broadcast_room_bye : ℕ → ℕ → Chats × W → Chats × W
  broadcast_room_bye c r s = broadcast_callback_helper none r (user_left (s.0.connections c).name) s

  leave_room : ℕ → Option ℕ → Chats × W → Option (Chats × W)
  unfolding broadcast_room_bye take_out
  leave_room c none s = some s
  leave_room c (some r) s = do
    assert (s.0.connections c).state.in_room
    let (t, w) = broadcast_room_bye c r s
    let t' = take_out c r t
    some (t', set_user_count (t'.rooms r).name (length (t'.rooms r).user_list + 1) minus_one w)

  pub broadcast_room_leave : ℕ → Chats × W → Option (Chats × W)
  unfolding leave_room
  broadcast_room_leave c s = leave_room c (s.0.connections c).callback_data s

  -- `do { ... } while(0)`: a user of the room stays, and one of another room leaves that first.
  enter_room : ℕ → ℕ → Option ℕ → Chats × W → Option (Chats × W)
  unfolding put_in
  enter_room c r none (s, w) = some (put_in c r s, w)
  enter_room c r (some old) s =
      let x = s.0.connections c in
      let move : Option (Chats × W) = (do
        (t, w) ← broadcast_room_leave c s
        assert (is_none (t.connections c).callback_data)
        some (put_in c r t, w)) in
      do assert x.state.in_room; if old == r then some s else move

  join_room : ℕ → Option ℕ → Chats × W → Option (Bool × (Chats × W))
  unfolding enter_room default_chat_send broadcast_room_greet
  join_room c none s = some (false, s)
  join_room c (some r) s =
      let enter : Option (Bool × (Chats × W)) = (do
        t ← enter_room c r (s.0.connections c).callback_data s
        let (u, w) = broadcast_room_greet c r t
        some (true, (u, set_user_count (u.rooms r).name (length (u.rooms r).user_list - 1) 1 w))) in
      if leb max_chat_room_user (length (s.0.rooms r).user_list)
      then some (false, (default_chat_send c room_full s).1)
      else enter

  -- `none` is a failed assertion, and the `Bool` the result, `true` for 0.
  pub broadcast_room_join : (ℕ → ℕ) → ℕ → ℕ → Chats × W → Option (Bool × (Chats × W))
  unfolding join_room find_room
  broadcast_room_join hash c room_name s =
      let join = join_room c (find_room hash room_name s.0) s in
      if not (s.0.connections c).state.logged_in then some (false, s) else join

  -- apps/chat/src/user.c, where the name 0 is the empty one, and `unset_name` takes the name out of
  -- the database.
  pub logoff_user : (ℕ → W → W) → ℕ → Chats × W → Chats × W
  logoff_user unset_name c (s, w) =
      let x = s.connections c in
      if x.name == 0
      then (s, w)
      else (with_state c (record x.state { logged_in = false }) s, unset_name x.name w)

  pub chat_quit_plug : (ℕ → W → W) → ℕ → Chats × W → Option (Chats × W)
  unfolding default_chat_send logoff_user
  chat_quit_plug unset_name c s = do
    (t, w) ← broadcast_room_leave c s
    let u = with_state c (record (t.connections c).state { quit = true }) t
    some (default_chat_send c bye (logoff_user unset_name c (u, w))).1

  -- The part of closing that concerns rooms and log-in, with the stream's own closing as a
  -- parameter.
  pub default_chat_close :
      (ℕ → W → W) → (ℕ → Chats × W → Chats × W) → ℕ → Chats × W → Option (Chats × W)
  unfolding logoff_user
  default_chat_close unset_name close c (s, w) =
      let x = (s.connections c).state in
      let quitting : Chats =
        if x.soft_quit || x.quit then s else with_state c (record x { quit = true }) s in
      let leave = broadcast_room_leave c (quitting, w) in
      do
        t ← if x.in_room then leave else some (quitting, w)
        let u = if (t.0.connections c).state.logged_in then logoff_user unset_name c t else t
        some (close c u)
