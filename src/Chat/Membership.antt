-- ===== src/Chat/Membership.antt =====
-- Joining and leaving rooms.
use nginz.Prelude.{
  ℕ, ◌+◌, ◌-◌, ◌≡◌, refl, sym, ap, ◌∙◌, ◌≢◌, inl, inr, Bool, true, false, not, ◌&&◌, Option, none,
  some, leb, ◌==◌, if◌then◌else◌, ==_refl, eq_of_==, ==_of_ne, Bool-cases, length,
}
use nginz.Chat.{
  Chats, Notice, take_out, put_in, find_room, max_chat_room_user, leave_room, broadcast_room_leave,
  broadcast_room_bye, broadcast_room_greet, enter_room, join_room, broadcast_room_join,
  default_chat_send, room_full,
}
use nginz.Chat.Rooms.{
  IsValid, IsValid-Same, Same, default_chat_send-Same, broadcast_room_bye-Same,
  broadcast_room_greet-Same, take_out-IsValid, put_in-IsValid,
}

-- Every connection but `c` stays where it is.
abbrev pub OthersStay : ℕ → Chats → Chats → Type 0
OthersStay c s t =
    (d : ℕ) → d ≢ c → (t.connections d).callback_data ≡ (s.connections d).callback_data

-- A valid state in which the connection is in that room, or in none.
abbrev pub Arrives : ℕ → Option ℕ → Chats → Chats → Type 0
Arrives c room s t = IsValid t × ((t.connections c).callback_data ≡ room) × OthersStay c s t

-- A room that was found and has a place left.
abbrev pub has_room : Chats → Option ℕ → Bool
has_room s none = false
has_room s (some r) = not (leb max_chat_room_user (length (s.rooms r).user_list))

take_out-Arrives :
    (c r : ℕ) (s : Chats)
    → IsValid s
    → (s.connections c).callback_data ≡ some r
    → Arrives c none s (take_out c r s)
take_out-Arrives c r s v e = (
  take_out-IsValid c r s v e,
  unfold take_out in rw (==_refl c) refl,
  λ d ne. unfold take_out in rw (==_of_ne c d (λ same. ne (sym same))) refl,
)

put_in-Arrives :
    (c r : ℕ) (s : Chats)
    → IsValid s
    → (s.connections c).callback_data ≡ none
    → Arrives c (some r) s (put_in c r s)
put_in-Arrives c r s v e = (
  put_in-IsValid c r s v e,
  unfold put_in in rw (==_refl c) refl,
  λ d ne. unfold put_in in rw (==_of_ne c d (λ same. ne (sym same))) refl,
)

Arrives-Same :
    (c : ℕ) (room : Option ℕ) (s t u : Chats) → Same s t → Arrives c room t u → Arrives c room s u
Arrives-Same c room s t u same (v, here, others) = (v, here, λ d ne. others d ne ∙ same.place d)

pub Same-Arrives :
    (c : ℕ) (room : Option ℕ) (s t u : Chats) → Arrives c room s t → Same t u → Arrives c room s u
Same-Arrives c room s t u (v, here, others) same =
    (IsValid-Same t u same v, same.place c ∙ here, λ d ne. same.place d ∙ others d ne)

Arrives-trans :
    (c : ℕ) (room room' : Option ℕ) (s t u : Chats)
    → Arrives c room s t
    → Arrives c room' t u
    → Arrives c room' s u
Arrives-trans c room room' s t u (v, here, others) (v', here', others') =
    (v', here', λ d ne. others' d ne ∙ others d ne)

module _ {W : Type 0} (real_send : ℕ → Notice → W → Bool × W)
    (set_user_count : ℕ → ℕ → ℕ → W → W) where
  leave_room_lem :
      (c : ℕ) (o : Option ℕ) (s : Chats × W)
      → IsValid s.0
      → (s.0.connections c).callback_data ≡ o
      → (t : Chats × W) × (leave_room real_send set_user_count c o s ≡ some t)
        × Arrives c none s.0 t.0
  unfolding leave_room
  leave_room_lem c none s v e = (s, refl, (v, e, λ d ne. refl))
  leave_room_lem c (some r) s v e =
      let b = broadcast_room_bye real_send set_user_count c r s in
      let same = broadcast_room_bye-Same real_send set_user_count c r s in
      let in_room : (s.0.connections c).state.in_room ≡ true = v.flag c ∙ rw e refl in
      let arrives = take_out-Arrives c r b.0 (IsValid-Same s.0 b.0 same v) (same.place c ∙ e) in
      let t = take_out c r b.0 in
      (
        (t, set_user_count (t.rooms r).name (length (t.rooms r).user_list + 1) 0xffff_ffff b.1),
        rw in_room refl,
        Arrives-Same c none s.0 b.0 t same arrives,
      )

  -- In a valid state leaving fails no assertion and leaves a valid state, in which the connection
  -- is in no room and every other one is where it was.
  pub broadcast_room_leave_lem :
      (c : ℕ) (s : Chats × W)
      → IsValid s.0
      → (t : Chats × W) × (broadcast_room_leave real_send set_user_count c s ≡ some t)
        × Arrives c none s.0 t.0
  unfolding broadcast_room_leave
  broadcast_room_leave_lem c s v = leave_room_lem c _ s v refl

  enter_room_lem :
      (c r : ℕ) (o : Option ℕ) (s : Chats × W)
      → IsValid s.0
      → (s.0.connections c).callback_data ≡ o
      → (t : Chats × W) × (enter_room real_send set_user_count c r o s ≡ some t)
        × Arrives c (some r) s.0 t.0
  unfolding enter_room
  enter_room_lem c r none s v e = ((put_in c r s.0, s.1), refl, put_in-Arrives c r s.0 v e)
  enter_room_lem c r (some old) s v e =
      let in_room : (s.0.connections c).state.in_room ≡ true = v.flag c ∙ rw e refl in
      elim (Bool-cases (old == r)) [
        | inl same ↦ (
          s,
          rw (in_room, same) refl,
          (v, e ∙ ap (λ (q : ℕ). some q) (eq_of_== old r same), λ d ne. refl),
        )
        | inr other ↦
            let (t, left, gone) = broadcast_room_leave_lem c s v in
            (
              (put_in c r t.0, t.1),
              rw (in_room, other, left, gone.1) refl,
              Arrives-trans c none (some r) s.0 t.0 (put_in c r t.0) gone
                  (put_in-Arrives c r t.0 gone.0 gone.1),
            )
      ]

  join_room_lem :
      (c : ℕ) (o : Option ℕ) (s : Chats × W)
      → IsValid s.0
      → (t : Chats × W) × (join_room real_send set_user_count c o s ≡ some (has_room s.0 o, t))
        × Arrives c (if has_room s.0 o then o else (s.0.connections c).callback_data) s.0 t.0
  unfolding join_room
  join_room_lem c none s v = (s, refl, (v, refl, λ d ne. refl))
  join_room_lem c (some r) s v =
      elim (Bool-cases (leb max_chat_room_user (length (s.0.rooms r).user_list))) [
        | inl full ↦
            let t = (default_chat_send real_send set_user_count c room_full s).1 in
            (
              t,
              rw full refl,
              rw full (
                  Same-Arrives c (s.0.connections c).callback_data s.0 s.0 t.0
                    (v, refl, λ d ne. refl)
                    (default_chat_send-Same real_send set_user_count c room_full s)),
            )
        | inr open_room ↦
            let (t, entered, arrives) = enter_room_lem c r _ s v refl in
            let u = broadcast_room_greet real_send set_user_count c r t in
            (
              (u.0, set_user_count (u.0.rooms r).name (length (u.0.rooms r).user_list - 1) 1 u.1),
              rw (open_room, entered) refl,
              rw open_room (
                  Same-Arrives c (some r) s.0 t.0 u.0 arrives
                    (broadcast_room_greet-Same real_send set_user_count c r t)),
            )
      ]

  -- Joining the room that the search by the hash finds.
  pub broadcast_room_join_lem :
      (hash : ℕ → ℕ) (c room_name : ℕ) (s : Chats × W)
      → IsValid s.0
      → let room = find_room hash room_name s.0 in
        let ok = (s.0.connections c).state.logged_in && has_room s.0 room in
        (t : Chats × W) × (broadcast_room_join real_send set_user_count hash c room_name s
          ≡ some (ok, t))
        × Arrives c (if ok then room else (s.0.connections c).callback_data) s.0 t.0
  unfolding broadcast_room_join
  broadcast_room_join_lem hash c room_name s v =
      elim (Bool-cases (s.0.connections c).state.logged_in) [
        | inl yes_in ↦
            let (t, joined, arrives) = join_room_lem c (find_room hash room_name s.0) s v in
            (t, rw yes_in joined, rw yes_in arrives)
        | inr not_in ↦ (s, rw not_in refl, rw not_in (v, refl, λ d ne. refl))
      ]
