-- ===== src/RoomMaster.antt =====
-- apps/chat/src/room_master.c: the rooms are shared out among the workers as they are forked, and
-- the master lists them. A room of the code's array is named by its index; its name as a room of
-- Chat is the index and one, since 0 is the empty name there.
mod Share
mod Listing
mod Tests
use nginz.Prelude.{
  ℕ, zero, suc, ◌+◌, ◌-◌, Bool, not, Option, none, some, List, [], ◌∷◌, ◌++◌, ltb, ◌==◌,
  if◌then◌else◌, assert, ◌>>=◌, ◌>>◌, length, take,
}
use nginz.Xtring.{Xtring}
use nginz.Scanner
use nginz.Chat
use nginz.Chat.{Chats}

abbrev pub room_count : ℕ
room_count = 10

-- The names in the array, put together with a space behind each of them but the last.
abbrev pub default_rooms : List (List ℕ)
default_rooms =
    (79 ∷ 78 ∷ 69 ∷ [])
    ∷ (84 ∷ 87 ∷ 79 ∷ [])
    ∷ (84 ∷ 72 ∷ 82 ∷ 69 ∷ 69 ∷ [])
    ∷ (70 ∷ 79 ∷ 85 ∷ 82 ∷ [])
    ∷ (70 ∷ 73 ∷ 86 ∷ 69 ∷ [])
    ∷ (83 ∷ 73 ∷ 88 ∷ [])
    ∷ (83 ∷ 69 ∷ 86 ∷ 69 ∷ 78 ∷ [])
    ∷ (69 ∷ 73 ∷ 71 ∷ 72 ∷ 84 ∷ [])
    ∷ (78 ∷ 73 ∷ 78 ∷ 69 ∷ [])
    ∷ (84 ∷ 69 ∷ 78 ∷ [])
    ∷ []

-- The loop of `default_room_setup`, before the last space is trimmed.
unfoldable pub spaced : List (List ℕ) → List ℕ
spaced [] = []
spaced (w ∷ ws) = w ++ (32 ∷ spaced ws)

-- The text that the master sets under the key of the rooms; a worker sets none.
unfoldable pub default_room_setup : Bool → Option (List ℕ)
unfolding spaced
default_room_setup is_master =
    let text = spaced default_rooms in
    if not is_master then none else some (take (length text - 1) text)

-- The static count, the requests to set the process of a room (room and pid), and the rooms of the
-- process.
pub record Setup : Type 0 where
  pub internal_child_count : ℕ
  pub requests : List (ℕ × ℕ)
  pub chats : Chats

-- An index outside of the array is read all the same in the code: `none`.
pub chat_room_add_helper : ℕ → ℕ → Setup → Option Setup
chat_room_add_helper getpid index s = do
  assert (ltb index room_count)
  some (record s {
    requests = s.requests ++ (index, getpid) ∷ [];
    chats = Chat.broadcast_add_room (index + 1) s.chats;
  })

pub default_room_fork_parent_after_callback : Setup → Setup
default_room_fork_parent_after_callback s = record s {
  internal_child_count = s.internal_child_count + 2;
}

pub default_room_fork_child_after_callback : ℕ → Setup → Option Setup
unfolding chat_room_add_helper
default_room_fork_child_after_callback getpid s = do
  first ←
      chat_room_add_helper getpid s.internal_child_count
        (record s { internal_child_count = s.internal_child_count + 1 })
  chat_room_add_helper getpid first.internal_child_count first

-- A line of the answer; a count of 0 is not shown.
pub data Line : Type 0 where
  active_rooms : Line
  room_line : List ℕ → ℕ → Line
  end_of_list : Line

-- `user_count` is the number in the table of the master for a room, as a 32-bit pattern; -1 and
-- every other negative number count as none.
abbrev pub fixup : ℕ → ℕ
fixup count = if ltb count 0x8000_0000 then count else 0

module _ (X : Xtring) (user_count : List ℕ → ℕ) where
  open X use {Txt, bytes, destroyed}

  -- The loop, with rounds to spend: each takes a word.
  pub describe_loop : ℕ → Txt → Txt → List Line
  describe_loop zero roomstr next = []
  describe_loop (suc rounds) roomstr next =
      let found = Scanner.scanner_next_token X roomstr next in
      let line = room_line (bytes found.1) (fixup (user_count (bytes found.1))) in
      let rest = describe_loop rounds found.0 destroyed in
      if length (bytes found.1) == 0 then [] else line ∷ rest

  pub chat_room_describe : Txt → List Line
  unfolding describe_loop
  chat_room_describe roomstr =
      active_rooms
      ∷ (describe_loop (length (bytes roomstr) + 1) roomstr destroyed ++ (end_of_list ∷ []))

  -- The answer to the worker: nothing where the master has no rooms.
  pub on_async_room_call_master : Txt → List Line
  unfolding chat_room_describe
  on_async_room_call_master info =
      let room_info = chat_room_describe info in if length (bytes info) == 0 then [] else room_info
