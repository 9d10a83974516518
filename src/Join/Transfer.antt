-- ===== src/Join/Transfer.antt =====
-- The command at its receiver.
use nginz.Prelude.{
  ℕ, ◌+◌, ◌≤◌, ◌≡◌, refl, ◌∙◌, true, false, some, List, [], ◌∷◌, ◌++◌, arith, ◌==◌, ==_of_ne,
  length, length-append,
}
use mathlib.Core.List.{append_assoc}
use nginz.Xtring.{Xtring}
use nginz.Scanner.{is_delim, scanner_next_token}
use nginz.Scanner.Cut.{IsToken, next_word, next_word_behind}
use nginz.Join.{
  JoinHooks, hiddenjoin, transfer_command, chat_hiddenjoin_get_room_and_name, chat_hiddenjoin_plug,
  enter,
}

hiddenjoin-IsToken : IsToken hiddenjoin
unfolding is_delim
hiddenjoin-IsToken = (
  (
    refl,
    (
      refl,
      (
        refl,
        (
          refl,
          (
            refl,
            (
              refl,
              (refl, (refl, (refl, (refl, (refl, (refl, (refl, (refl, (refl, (refl, tt)))))))))),
            ),
          ),
        ),
      ),
    ),
  ),
  omega arith,
)

space_delim : is_delim 32 ≡ true
unfolding is_delim
space_delim = refl

line_delim : is_delim 10 ≡ true
unfolding is_delim
line_delim = refl

module _ (X : Xtring) where
  open X use {Txt, bytes, capacity, concat, of_bytes}

  concat_lem :
      (t x : Txt) (l r : List ℕ)
      → bytes t ≡ l
      → bytes x ≡ r
      → length l + length r ≤ capacity t
      → (bytes (concat t x) ≡ l ++ r) × (capacity (concat t x) ≡ capacity t)
  concat_lem t x l r e f room =
      (X.bytes-concat t x (rw (e, f) room) ∙ rw (e, f) refl, X.capacity-concat t x)

  -- What the command says, where the buffer is empty and has room for it.
  pub transfer_command_bytes :
      (buffer room name : Txt)
      → bytes buffer ≡ []
      → length (bytes room) + (length (bytes name) + 19) ≤ capacity buffer
      → bytes (transfer_command X buffer room name)
        ≡ hiddenjoin ++ 32 ∷ (bytes room ++ 32 ∷ (bytes name ++ 10 ∷ []))
  unfolding transfer_command
  transfer_command_bytes buffer room name empty fits =
      let l1 = hiddenjoin ++ 32 ∷ [] in
      let l2 = l1 ++ bytes room in
      let l3 = l2 ++ 32 ∷ [] in
      let l4 = l3 ++ bytes name in
      let (b1, c1) =
        concat_lem buffer (of_bytes l1) [] l1 empty (X.bytes-of_bytes l1) (omega arith) in
      let t1 = concat buffer (of_bytes l1) in
      let (b2, c2) = concat_lem t1 room l1 (bytes room) b1 refl (omega (arith, c1)) in
      let t2 = concat t1 room in
      let n2 : length l2 ≡ 17 + length (bytes room) = length-append l1 (bytes room) in
      let (b3, c3) =
        concat_lem t2 (of_bytes (32 ∷ [])) l2 (32 ∷ []) b2 (X.bytes-of_bytes (32 ∷ []))
          (omega (arith, c1, c2, n2)) in
      let t3 = concat t2 (of_bytes (32 ∷ [])) in
      let n3 : length l3 ≡ length l2 + 1 = length-append l2 (32 ∷ []) in
      let (b4, c4) =
        concat_lem t3 name l3 (bytes name) b3 refl (omega (arith, c1, c2, c3, n2, n3)) in
      let t4 = concat t3 name in
      let n4 : length l4 ≡ length l3 + length (bytes name) = length-append l3 (bytes name) in
      let (b5, c5) =
        concat_lem t4 (of_bytes (10 ∷ [])) l4 (10 ∷ []) b4 (X.bytes-of_bytes (10 ∷ []))
          (omega (arith, c1, c2, c3, c4, n2, n3, n4)) in
      b5
      ∙ append_assoc l3 (bytes name) (10 ∷ [])
      ∙ append_assoc l2 (32 ∷ []) (bytes name ++ 10 ∷ [])
      ∙ append_assoc l1 (bytes room) (32 ∷ (bytes name ++ 10 ∷ []))

  get_room_and_name_lem :
      (request : Txt) (room name : List ℕ)
      → bytes request ≡ hiddenjoin ++ 32 ∷ (room ++ 32 ∷ (name ++ 10 ∷ []))
      → IsToken room
      → IsToken name
      → (r n : Txt) × (chat_hiddenjoin_get_room_and_name X request ≡ some (r, n))
        × (bytes r ≡ room)
        × (bytes n ≡ name)
  unfolding chat_hiddenjoin_get_room_and_name
  get_room_and_name_lem request room name e is_room is_name =
      let source = of_bytes (bytes request) in
      let first = scanner_next_token X source X.destroyed in
      let second = scanner_next_token X first.0 first.1 in
      let third = scanner_next_token X second.0 second.1 in
      let (w1, r1) =
        next_word X source X.destroyed hiddenjoin (32 ∷ (room ++ 32 ∷ (name ++ 10 ∷ [])))
          (X.bytes-of_bytes (bytes request) ∙ e) hiddenjoin-IsToken space_delim in
      let (w2, r2) =
        next_word_behind X first.0 first.1 room (32 ∷ (name ++ 10 ∷ [])) 32 r1 space_delim is_room
          space_delim in
      let (w3, r3) =
        next_word_behind X second.0 second.1 name (10 ∷ []) 32 r2 space_delim is_name line_delim in
      let n1 : (length (bytes first.1) == 0) ≡ false = rw w1 refl in
      let n2 : (length (bytes second.1) == 0) ≡ false =
        rw w2 (==_of_ne (length room) 0 (omega (arith, is_room.1))) in
      let n3 : (length (bytes third.1) == 0) ≡ false =
        rw w3 (==_of_ne (length name) 0 (omega (arith, is_name.1))) in
      (second.1, third.1, rw (n1, n2, n3) refl, w2, w3)

  -- What one process sends to hand a user over, the other understands: its user is logged in under
  -- the same name, and joins the same room, each of them a word. The buffer is empty and has room
  -- for the command.
  pub chat_hiddenjoin_plug-transfer_command :
      {S : Type 0} (H : JoinHooks X S) (buffer room name : Txt) (s : S)
      → bytes buffer ≡ []
      → length (bytes room) + (length (bytes name) + 19) ≤ capacity buffer
      → IsToken (bytes room)
      → IsToken (bytes name)
      → (r n : Txt) × (chat_hiddenjoin_plug X H (transfer_command X buffer room name) s
          ≡ H.broadcast_room_join r (H.set_name n (H.set_logged_in s)))
        × (bytes r ≡ bytes room)
        × (bytes n ≡ bytes name)
  unfolding chat_hiddenjoin_plug enter
  chat_hiddenjoin_plug-transfer_command H buffer room name s empty fits is_room is_name =
      let whole = transfer_command_bytes buffer room name empty fits in
      let (r, n, found, same_room, same_name) =
        get_room_and_name_lem (transfer_command X buffer room name) (bytes room) (bytes name) whole
          is_room is_name in
      let filled : (length (bytes (transfer_command X buffer room name)) == 0) ≡ false =
        rw whole (==_of_ne _ 0 (omega arith)) in
      (r, n, rw (filled, found) refl, same_room, same_name)
