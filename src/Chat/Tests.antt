-- ===== src/Chat/Tests.antt =====
-- Rooms and users on small examples.
use nginz.Prelude.{
  ℕ, zero, suc, ◌+◌, ◌≡◌, refl, Bool, true, false, none, some, List, [], ◌∷◌, arith, ==_of_ne,
}
use nginz.Chat.{
  Connection, Chats, Notice, said, put_in, broadcast_room_leave, broadcast_room_join,
  broadcast_callback,
}
use nginz.Chat.Rooms.{IsValid, count, put_in-IsValid}
use nginz.Chat.Membership.{Arrives, OthersStay, broadcast_room_leave_lem}
use nginz.Chat.Join.{IsDistinct, MayJoin, broadcast_room_join_named}
use nginz.Chat.Talk.{note, no_count, heard, broadcast_callback_log}

abbrev user : ℕ → Connection
user c = record {
  name = 100 + c;
  state = record {
    logged_in = true;
    in_room = false;
    quit = false;
    soft_quit = false;
    zombie = false;
  };
  callback_data = none;
  is_broadcast = false;
}

-- Two rooms with the names 1 and 2, and nobody in them.
abbrev lobby : Chats
lobby = record {
  connections = user;
  rooms = λ r. record { name = r + 1; user_list = [] };
  room_count = 2;
}

lobby-IsValid : IsValid lobby
lobby-IsValid = record { member = λ c r. unfold count in refl; flag = λ c. refl }

-- The users 5 and 6 in the first room.
abbrev talking : Chats
talking = put_in 6 0 (put_in 5 0 lobby)

talking-IsValid : IsValid talking
talking-IsValid =
    put_in-IsValid 6 0 (put_in 5 0 lobby) (put_in-IsValid 5 0 lobby lobby-IsValid refl)
      (unfold put_in in refl)

broadcast_room_leave_example :
    (t : Chats × List (ℕ × Notice)) × (broadcast_room_leave note no_count 5 (talking, []) ≡ some t)
    × Arrives 5 none talking t.0
broadcast_room_leave_example =
    broadcast_room_leave_lem note no_count 5 (talking, []) talking-IsValid

talking_room : (r : ℕ) → (talking.rooms r).name ≡ r + 1
unfolding put_in
talking_room zero = refl
talking_room (suc r) = rw (==_of_ne 0 (suc r) (omega arith)) refl

talking_count : talking.room_count ≡ 2
unfolding put_in
talking_count = refl

talking-IsDistinct : IsDistinct (λ n. n) 2 talking
talking-IsDistinct =
    (λ r q (h, e) (k, e'). omega (arith, e, e', talking_room r, talking_room q), λ r h e. e)

-- The user 5 moves to the second room.
broadcast_room_join_named_example :
    (ok : Bool) × (t : Chats × List (ℕ × Notice)) × (broadcast_room_join note no_count
        (λ n. n)
        5
        2
        (talking, [])
      ≡ some (ok, t))
    × IsValid t.0
    × OthersStay 5 talking t.0
    × ((r : ℕ) → MayJoin 5 2 talking r → (ok ≡ true) × ((t.0.connections 5).callback_data ≡ some r))
    × (ok ≡ true → (r : ℕ) × MayJoin 5 2 talking r)
    × (ok ≡ false → (t.0.connections 5).callback_data ≡ (talking.connections 5).callback_data)
broadcast_room_join_named_example =
    broadcast_room_join_named note no_count (λ n. n) 5 2 (talking, []) talking-IsValid
      talking-IsDistinct

may_join : MayJoin 5 2 talking 1
may_join = (
  unfold put_in in refl,
  (unfold put_in in omega arith, talking_room 1),
  unfold put_in in omega arith,
)

broadcast_callback_example :
    broadcast_callback note no_count 5 33 (talking, []) ≡ (true, (talking, (6, said 105 33) ∷ []))
unfolding put_in heard
broadcast_callback_example = broadcast_callback_log 5 0 33 talking [] refl
