-- ===== src/Chat/Join.antt =====
-- Joining a room by its name.
use nginz.Prelude.{
  ℕ, ◌<◌, ◌≡◌, refl, ◌∙◌, Bool, true, false, ◌&&◌, Option, none, some, arith, leb, ◌==◌, ==_refl,
  eq_of_==, ==_of_ne, length, find_first-some, find_first_at,
}
use nginz.Chat.{Chats, Notice, find_room, max_chat_room_user, broadcast_room_join}
use nginz.Chat.Rooms.{IsValid}
use nginz.Chat.Membership.{OthersStay, has_room, broadcast_room_join_lem}

-- A room of that name.
abbrev pub IsRoom : Chats → ℕ → ℕ → Type 0
IsRoom s room_name r = (r < s.room_count) × ((s.rooms r).name ≡ room_name)

-- No two rooms have the same name, and no other name of a room has the hash of that name.
abbrev pub IsDistinct : (ℕ → ℕ) → ℕ → Chats → Type 0
IsDistinct hash room_name s =
    ((r q : ℕ) → IsRoom s room_name r → IsRoom s room_name q → r ≡ q)
    × ((r : ℕ)
        → r < s.room_count
        → hash (s.rooms r).name ≡ hash room_name
        → (s.rooms r).name ≡ room_name)

find_room-IsRoom :
    (hash : ℕ → ℕ) (room_name r : ℕ) (s : Chats)
    → IsDistinct hash room_name s
    → IsRoom s room_name r
    → find_room hash room_name s ≡ some r
unfolding find_room
find_room-IsRoom hash room_name r s (one, apart) (h, e) =
    find_first_at (λ q. hash (s.rooms q).name == hash room_name) s.room_count r h
      (rw e (==_refl (hash room_name)))
      (λ q l. ==_of_ne (hash (s.rooms q).name) (hash room_name) (λ same.
        let q_named : IsRoom s room_name q = (omega arith, apart q (omega arith) same) in
        absurd (omega (arith, one q r q_named (h, e)))))

find_room-some :
    (hash : ℕ → ℕ) (room_name r : ℕ) (s : Chats)
    → IsDistinct hash room_name s
    → find_room hash room_name s ≡ some r
    → IsRoom s room_name r
unfolding find_room
find_room-some hash room_name r s (one, apart) e =
    let (passes, h) =
      find_first-some (λ q. hash (s.rooms q).name == hash room_name) s.room_count r e in
    (h, apart r h (eq_of_== _ (hash room_name) passes))

has_room-some :
    (s : Chats) (o : Option ℕ)
    → has_room s o ≡ true
    → (r : ℕ) × (o ≡ some r) × (length (s.rooms r).user_list < max_chat_room_user)
has_room-some s none e = cc
has_room-some s (some r) e = (r, refl, ground arith)

-- The user is logged in, and the room of that name has less than 32 users.
abbrev pub MayJoin : ℕ → ℕ → Chats → ℕ → Type 0
MayJoin c room_name s r =
    ((s.connections c).state.logged_in ≡ true)
    × IsRoom s room_name r
    × (length (s.rooms r).user_list < max_chat_room_user)

module _ {W : Type 0} (real_send : ℕ → Notice → W → Bool × W)
    (set_user_count : ℕ → ℕ → ℕ → W → W) where
  -- In a valid state, where the names of the rooms differ and no other one has the hash of the
  -- name, joining fails no assertion and leaves a valid state, with every other connection where
  -- it was. If the user is logged in and there is a room of that name with less than 32 users,
  -- the result is 0 and the user is in that room; and with the result 0 that was so. With the
  -- result -1 the user is where it was.
  pub broadcast_room_join_named :
      (hash : ℕ → ℕ) (c room_name : ℕ) (s : Chats × W)
      → IsValid s.0
      → IsDistinct hash room_name s.0
      → (ok : Bool) × (t : Chats × W) × (broadcast_room_join real_send set_user_count hash c
            room_name s
          ≡ some (ok, t))
        × IsValid t.0
        × OthersStay c s.0 t.0
        × ((r : ℕ)
            → MayJoin c room_name s.0 r
            → (ok ≡ true) × ((t.0.connections c).callback_data ≡ some r))
        × (ok ≡ true → (r : ℕ) × MayJoin c room_name s.0 r)
        × (ok ≡ false → (t.0.connections c).callback_data ≡ (s.0.connections c).callback_data)
  broadcast_room_join_named hash c room_name s v distinct =
      let room = find_room hash room_name s.0 in
      let ok = (s.0.connections c).state.logged_in && has_room s.0 room in
      let (t, joined, (valid, here, others)) =
        broadcast_room_join_lem real_send set_user_count hash c room_name s v in
      (
        ok,
        t,
        joined,
        valid,
        others,
        λ r (logged, named, free).
            let found = find_room-IsRoom hash room_name r s.0 distinct named in
            let full : leb max_chat_room_user (length (s.0.rooms r).user_list) ≡ false =
              ground (arith, free) in
            let yes : ok ≡ true = rw (logged, found, full) refl in (yes, here ∙ rw yes found),
        λ yes.
            let (r, found, free) = has_room-some s.0 room (ground (arith, yes)) in
            (r, (ground (arith, yes), find_room-some hash room_name r s.0 distinct found, free)),
        λ no. here ∙ rw no refl,
      )
