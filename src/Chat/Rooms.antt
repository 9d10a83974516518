-- ===== src/Chat/Rooms.antt =====
-- Who is in which room: a connection stands once in the list of its room, and in no other.
use nginz.Prelude.{
  ℕ, ◌+◌, ◌-◌, ◌≡◌, refl, ◌∙◌, inl, inr, Bool, true, not, Option, none, some, List, [], ◌∷◌, ◌++◌,
  arith, ◌==◌, if◌then◌else◌, ==_refl, eq_of_==, Bool-cases,
}
use mathlib.Core.Path.{subst}
use nginz.Chat.{
  Chats, Notice, is_none, is_gone, is_skipped, with_state, remove, default_chat_send, send_to_users,
  broadcast_callback_helper, show_users, broadcast_room_greet, broadcast_room_bye, take_out, put_in,
}

-- How often a connection stands in a list.
unfoldable pub count : ℕ → List ℕ → ℕ
count c [] = 0
count c (d ∷ l) = (if c == d then 1 else 0) + count c l

abbrev pub in_at : Option ℕ → ℕ → ℕ
in_at none r = 0
in_at (some q) r = if q == r then 1 else 0

-- A connection stands once in the list of the room that it points to, and in no other; the flag
-- CHAT_IN_ROOM tells whether it points to a room.
pub record IsValid (s : Chats) : Type 0 where
  pub member : (c r : ℕ) → count c (s.rooms r).user_list ≡ in_at (s.connections c).callback_data r
  pub flag :
      (c : ℕ) → (s.connections c).state.in_room ≡ not (is_none (s.connections c).callback_data)

pub count-remove :
    (c d : ℕ) (l : List ℕ) → count d (remove c l) ≡ count d l - (if c == d then 1 else 0)
unfolding count remove
count-remove c d [] = ground arith
count-remove c d (x ∷ l) = ground (arith, count-remove c d l)

pub count-append :
    (c d : ℕ) (l : List ℕ) → count d (l ++ c ∷ []) ≡ count d l + (if c == d then 1 else 0)
unfolding count
count-append c d [] = ground arith
count-append c d (x ∷ l) = ground (arith, count-append c d l)

-- What sending leaves alone: the rooms, the names, and which connection is where.
pub record Same (s t : Chats) : Type 0 where
  pub place : (c : ℕ) → (t.connections c).callback_data ≡ (s.connections c).callback_data
  pub flags : (c : ℕ) → (t.connections c).state.in_room ≡ (s.connections c).state.in_room
  pub rooms : (r : ℕ) → t.rooms r ≡ s.rooms r
  pub names : (c : ℕ) → (t.connections c).name ≡ (s.connections c).name

pub Same-refl : (s : Chats) → Same s s
Same-refl s = record { place = λ c. refl; flags = λ c. refl; rooms = λ r. refl; names = λ c. refl }

pub Same-trans : (s t u : Chats) → Same s t → Same t u → Same s u
Same-trans s t u a b = record {
  place = λ c. b.place c ∙ a.place c;
  flags = λ c. b.flags c ∙ a.flags c;
  rooms = λ r. b.rooms r ∙ a.rooms r;
  names = λ c. b.names c ∙ a.names c;
}

pub IsValid-Same : (s t : Chats) → Same s t → IsValid s → IsValid t
IsValid-Same s t same v = record {
  member = λ c r. rw (same.rooms r, same.place c) (v.member c r);
  flag = λ c. rw (same.flags c, same.place c) (v.flag c);
}

soft_quit-Same :
    (c : ℕ) (s : Chats)
    → Same s (with_state c (record (s.connections c).state { soft_quit = true }) s)
soft_quit-Same c s = record {
  place = λ d. ground arith;
  flags = λ d. ground arith;
  rooms = λ r. refl;
  names = λ d. ground arith;
}

module _ {W : Type 0} (real_send : ℕ → Notice → W → Bool × W)
    (set_user_count : ℕ → ℕ → ℕ → W → W) where
  pub default_chat_send-Same :
      (c : ℕ) (msg : Notice) (s : Chats × W)
      → Same s.0 (default_chat_send real_send set_user_count c msg s).1.0
  unfolding default_chat_send
  default_chat_send-Same c msg (s, w) = elim (Bool-cases (is_gone (s.connections c).state)) [
    | inl g ↦ rw g (Same-refl s)
    | inr g ↦ elim (Bool-cases (real_send c msg w).0) [
      | inl e ↦ rw (g, e) (soft_quit-Same c s)
      | inr e ↦ rw (g, e) (Same-refl s)
    ]
  ]

  send_to_users-Same :
      (omit : Option ℕ) (l : List ℕ) (msg : Notice) (s : Chats × W)
      → Same s.0 (send_to_users real_send set_user_count omit l msg s).0
  unfolding send_to_users
  send_to_users-Same omit [] msg s = Same-refl s.0
  send_to_users-Same omit (c ∷ l) msg s = elim (Bool-cases (is_skipped omit c)) [
    | inl k ↦ rw k (send_to_users-Same omit l msg s)
    | inr k ↦
        let t = (default_chat_send real_send set_user_count c msg s).1 in
        rw k (
          Same-trans s.0 t.0 (send_to_users real_send set_user_count omit l msg t).0
            (default_chat_send-Same c msg s) (send_to_users-Same omit l msg t))
  ]

  pub broadcast_callback_helper-Same :
      (omit : Option ℕ) (r : ℕ) (msg : Notice) (s : Chats × W)
      → Same s.0 (broadcast_callback_helper real_send set_user_count omit r msg s).0
  unfolding broadcast_callback_helper
  broadcast_callback_helper-Same omit r msg s =
      send_to_users-Same omit (s.0.rooms r).user_list msg s

  show_users-Same :
      (c : ℕ) (l : List ℕ) (s : Chats × W) → Same s.0 (show_users real_send set_user_count c l s).0
  unfolding show_users
  show_users-Same c [] s = Same-refl s.0
  show_users-Same c (other ∷ l) s =
      let line = Notice.user_line (s.0.connections other).name (c == other) in
      let t = (default_chat_send real_send set_user_count c line s).1 in
      Same-trans s.0 t.0 (show_users real_send set_user_count c l t).0
        (default_chat_send-Same c line s) (show_users-Same c l t)

  pub broadcast_room_greet-Same :
      (c r : ℕ) (s : Chats × W) → Same s.0 (broadcast_room_greet real_send set_user_count c r s).0
  unfolding broadcast_room_greet
  broadcast_room_greet-Same c r s =
      let s1 =
        (default_chat_send real_send set_user_count c (Notice.entering (s.0.rooms r).name) s).1 in
      let s2 = show_users real_send set_user_count c (s1.0.rooms r).user_list s1 in
      let s3 = (default_chat_send real_send set_user_count c Notice.end_of_list s2).1 in
      let joined = Notice.user_joined (s3.0.connections c).name in
      let s4 = broadcast_callback_helper real_send set_user_count (some c) r joined s3 in
      Same-trans s.0 s1.0 s4.0 (default_chat_send-Same c (Notice.entering (s.0.rooms r).name) s) (
        Same-trans s1.0 s2.0 s4.0 (show_users-Same c (s1.0.rooms r).user_list s1) (
          Same-trans s2.0 s3.0 s4.0 (default_chat_send-Same c Notice.end_of_list s2)
            (broadcast_callback_helper-Same (some c) r joined s3)))

  pub broadcast_room_bye-Same :
      (c r : ℕ) (s : Chats × W) → Same s.0 (broadcast_room_bye real_send set_user_count c r s).0
  unfolding broadcast_room_bye
  broadcast_room_bye-Same c r s =
      broadcast_callback_helper-Same none r (Notice.user_left (s.0.connections c).name) s

pub take_out-IsValid :
    (c r : ℕ) (s : Chats)
    → IsValid s
    → (s.connections c).callback_data ≡ some r
    → IsValid (take_out c r s)
unfolding take_out
take_out-IsValid c r s v e =
    let mine : (q : ℕ) → count c (s.rooms q).user_list ≡ (if r == q then 1 else 0) =
      λ q. rw (v.member c q, e) refl in
    record {
      member = λ d q. elim (Bool-cases (r == q)) [
        | inl same ↦ elim (Bool-cases (c == d)) [
          | inl me ↦
              let one : count d (s.rooms r).user_list ≡ 1 =
                subst (λ k. count k (s.rooms r).user_list ≡ 1) (eq_of_== c d me)
                  (mine r ∙ rw (==_refl r) refl) in
              rw (same, me, count-remove c d (s.rooms r).user_list, me) (omega (arith, one))
          | inr ne ↦
              let there : count d (s.rooms r).user_list ≡ in_at (s.connections d).callback_data q =
                subst (λ k. count d (s.rooms r).user_list ≡ in_at (s.connections d).callback_data k)
                  (eq_of_== r q same) (v.member d r) in
              rw (same, ne, count-remove c d (s.rooms r).user_list, ne) (omega (arith, there))
        ]
        | inr other ↦ elim (Bool-cases (c == d)) [
          | inl me ↦
              rw (other, me)
                (subst (λ k. count k (s.rooms q).user_list ≡ 0) (eq_of_== c d me)
                  (mine q ∙ rw other refl))
          | inr ne ↦ rw (other, ne) (v.member d q)
        ]
      ];
      flag = λ d. elim (Bool-cases (c == d)) [ inl me ↦ rw me refl | inr ne ↦ rw ne (v.flag d) ];
    }

pub put_in-IsValid :
    (c r : ℕ) (s : Chats)
    → IsValid s
    → (s.connections c).callback_data ≡ none
    → IsValid (put_in c r s)
unfolding put_in
put_in-IsValid c r s v e =
    let mine : (q : ℕ) → count c (s.rooms q).user_list ≡ 0 = λ q. rw (v.member c q, e) refl in
    record {
      member = λ d q. elim (Bool-cases (r == q)) [
        | inl same ↦ elim (Bool-cases (c == d)) [
          | inl me ↦
              let none_yet : count d (s.rooms r).user_list ≡ 0 =
                subst (λ k. count k (s.rooms r).user_list ≡ 0) (eq_of_== c d me) (mine r) in
              rw (same, me, count-append c d (s.rooms r).user_list, me, same)
                (omega (arith, none_yet))
          | inr ne ↦
              let there : count d (s.rooms r).user_list ≡ in_at (s.connections d).callback_data q =
                subst (λ k. count d (s.rooms r).user_list ≡ in_at (s.connections d).callback_data k)
                  (eq_of_== r q same) (v.member d r) in
              rw (same, ne, count-append c d (s.rooms r).user_list, ne) (omega (arith, there))
        ]
        | inr other ↦ elim (Bool-cases (c == d)) [
          | inl me ↦
              rw (other, me, other)
                (subst (λ k. count k (s.rooms q).user_list ≡ 0) (eq_of_== c d me) (mine q))
          | inr ne ↦ rw (other, ne) (v.member d q)
        ]
      ];
      flag = λ d. elim (Bool-cases (c == d)) [ inl me ↦ rw me refl | inr ne ↦ rw ne (v.flag d) ];
    }
