-- ===== src/Chat/Types.antt =====
-- Connections and rooms, and the texts that are sent.
use nginz.Prelude.{ℕ, Bool, true, false, ◌||◌, Option, none, some, List, ◌==◌, Array, update}

abbrev pub max_chat_room_user : ℕ
max_chat_room_user = 32

-- The bits of `enum chat_state`.
pub record State : Type 0 where
  pub logged_in : Bool
  pub in_room : Bool
  pub quit : Bool
  pub soft_quit : Bool
  pub zombie : Bool

-- `callback_data` is the room, and `none` is NULL. `is_broadcast` tells that the response callback
-- is `broadcast_callback`.
pub record Connection : Type 0 where
  pub name : ℕ
  pub state : State
  pub callback_data : Option ℕ
  pub is_broadcast : Bool

pub record Room : Type 0 where
  pub name : ℕ
  pub user_list : List ℕ

pub record Chats : Type 0 where
  pub connections : Array Connection
  pub rooms : Array Room
  -- the rooms in `room_factory`
  pub room_count : ℕ

-- The texts that are sent, with the names that are put into them.
pub data Notice : Type 0 where
  entering : ℕ → Notice
  user_line : ℕ → Bool → Notice
  end_of_list : Notice
  user_joined : ℕ → Notice
  user_left : ℕ → Notice
  room_full : Notice
  said : ℕ → ℕ → Notice
  private_text : ℕ → Notice
  bye : Notice

abbrev pub is_gone : State → Bool
is_gone s = s.quit || s.soft_quit || s.zombie

-- The connection with other contents.
abbrev pub with_connection : ℕ → Connection → Chats → Chats
with_connection c x s = record s { connections = update s.connections c x }

abbrev pub with_state : ℕ → State → Chats → Chats
with_state c x s = with_connection c (record (s.connections c) { state = x }) s

abbrev pub with_users : ℕ → List ℕ → Chats → Chats
with_users r l s = record s { rooms = update s.rooms r (record (s.rooms r) { user_list = l }) }

abbrev pub is_none : Option ℕ → Bool
is_none none = true
is_none (some r) = false

abbrev pub is_skipped : Option ℕ → ℕ → Bool
is_skipped none c = false
is_skipped (some d) c = d == c
