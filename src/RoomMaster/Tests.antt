-- ===== src/RoomMaster/Tests.antt =====
-- The rooms on small examples.
use nginz.Prelude.{◌+◌, ◌≡◌, refl, true, false, none, some, List, [], ◌∷◌, ◌++◌, arith, drop}
use nginz.Xtring.Plain.{plain, plain_xtring}
use nginz.Fork.{fork_processors}
use nginz.Chat.{Chats}
use nginz.Scanner.{is_delim}
use nginz.Scanner.Cut.{IsToken}
use nginz.RoomMaster.{
  default_rooms, default_room_setup, Setup, active_rooms, room_line, end_of_list,
  default_room_fork_parent_after_callback, default_room_fork_child_after_callback,
  chat_room_describe,
}
use nginz.RoomMaster.Share.{Shares, fork_processors-Shares}
use nginz.RoomMaster.Listing.{behind, chat_room_describe_lem}

abbrev no_chats : Chats
no_chats = record {
  connections = λ c. record {
    name = 0;
    state = record {
      logged_in = false;
      in_room = false;
      quit = false;
      soft_quit = false;
      zombie = false;
    };
    callback_data = none;
    is_broadcast = false;
  };
  rooms = λ r. record { name = 0; user_list = [] };
  room_count = 0;
}

fork_processors-Shares_example :
    (m : Setup) × (children : List Setup) × (fork_processors
        (λ i. some (100 + i))
        some
        (λ pid s. some (default_room_fork_parent_after_callback s))
        default_room_fork_child_after_callback
        5
        0
        (record { internal_child_count = 0; requests = []; chats = no_chats })
      ≡ some (true, m, children))
    × (m.requests ≡ [])
    × Shares (λ i. 100 + i) 0 children
fork_processors-Shares_example = fork_processors-Shares (λ i. 100 + i) no_chats

default_text : default_room_setup true ≡ some ((79 ∷ 78 ∷ 69 ∷ []) ++ behind (drop 1 default_rooms))
unfolding default_room_setup
default_text = refl

-- "ONE" and "TWO", with three users in each room
one-IsToken : IsToken (79 ∷ 78 ∷ 69 ∷ [])
unfolding is_delim
one-IsToken = ((refl, (refl, (refl, tt))), omega arith)

two-IsToken : IsToken (84 ∷ 87 ∷ 79 ∷ [])
unfolding is_delim
two-IsToken = ((refl, (refl, (refl, tt))), omega arith)

chat_room_describe_example :
    chat_room_describe plain_xtring (λ w. 3) (plain (79 ∷ 78 ∷ 69 ∷ 32 ∷ 84 ∷ 87 ∷ 79 ∷ []) 64)
    ≡ active_rooms
      ∷ room_line (79 ∷ 78 ∷ 69 ∷ []) 3
      ∷ room_line (84 ∷ 87 ∷ 79 ∷ []) 3
      ∷ end_of_list
      ∷ []
chat_room_describe_example =
    chat_room_describe_lem plain_xtring (λ w. 3) (79 ∷ 78 ∷ 69 ∷ []) ((84 ∷ 87 ∷ 79 ∷ []) ∷ [])
      (plain (79 ∷ 78 ∷ 69 ∷ 32 ∷ 84 ∷ 87 ∷ 79 ∷ []) 64) one-IsToken (two-IsToken, tt) refl
