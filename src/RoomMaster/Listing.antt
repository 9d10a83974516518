-- ===== src/RoomMaster/Listing.antt =====
-- The list of the rooms.
use nginz.Prelude.{
  ℕ, zero, suc, ◌+◌, ◌≤◌, ◌<◌, ◌≡◌, refl, ap, ◌∙◌, true, false, List, [], ◌∷◌, ◌++◌, arith, ◌==◌,
  ==_of_ne, length, length-append, All,
}
use nginz.Xtring.{Xtring}
use nginz.Scanner.{is_delim, scanner_next_token}
use nginz.Scanner.Cut.{IsToken, next_word, next_word_behind, no_word}
use nginz.Scanner.Tokens.{Stops}
use nginz.RoomMaster.{
  Line, active_rooms, room_line, end_of_list, fixup, describe_loop, chat_room_describe,
}

-- Each word with a space in front.
abbrev pub behind : List (List ℕ) → List ℕ
behind [] = []
behind (w ∷ ws) = 32 ∷ (w ++ behind ws)

abbrev pub lines_of : (List ℕ → ℕ) → List (List ℕ) → List Line
lines_of user_count [] = []
lines_of user_count (w ∷ ws) = room_line w (fixup (user_count w)) ∷ lines_of user_count ws

behind-Stops : (ws : List (List ℕ)) → Stops (behind ws)
unfolding is_delim
behind-Stops [] = tt
behind-Stops (w ∷ ws) = refl

length-behind : (ws : List (List ℕ)) → All IsToken ws → length ws ≤ length (behind ws)
length-behind [] h = omega arith
length-behind (w ∷ ws) (token, h) = omega (arith, length-behind ws h, length-append w (behind ws))

space_delim : is_delim 32 ≡ true
unfolding is_delim
space_delim = refl

module _ (X : Xtring) (user_count : List ℕ → ℕ) where
  open X use {Txt, bytes, destroyed}

  line_step :
      (rounds : ℕ) (roomstr next : Txt) (w : List ℕ)
      → bytes (scanner_next_token X roomstr next).1 ≡ w
      → IsToken w
      → describe_loop X user_count (suc rounds) roomstr next
        ≡ room_line w (fixup (user_count w))
          ∷ describe_loop X user_count rounds (scanner_next_token X roomstr next).0 destroyed
  unfolding describe_loop
  line_step rounds roomstr next w e token =
      let filled : (length w == 0) ≡ false = ==_of_ne (length w) 0 (omega (arith, token.1)) in
      rw (e, filled) refl

  describe_lines :
      (ws : List (List ℕ)) (rounds : ℕ) (roomstr next : Txt)
      → length ws < rounds
      → All IsToken ws
      → bytes roomstr ≡ behind ws
      → describe_loop X user_count rounds roomstr next ≡ lines_of user_count ws
  unfolding describe_loop
  describe_lines ws zero roomstr next fuel h e = absurd (omega arith)
  describe_lines [] (suc rounds) roomstr next fuel h e = rw (no_word X roomstr next e) refl
  describe_lines (w ∷ ws) (suc rounds) roomstr next fuel (token, h) e =
      let (found, rest) =
        next_word_behind X roomstr next w (behind ws) 32 e space_delim token (behind-Stops ws) in
      line_step rounds roomstr next w found token
      ∙ ap (λ (l : List Line). room_line w (fixup (user_count w)) ∷ l)
          (describe_lines ws rounds (scanner_next_token X roomstr next).0 destroyed (omega arith) h
            rest)

  -- Where the text of the rooms is words with a space between them, the list has one line for each
  -- of them, in their order, with the number of its users, between the title and the end.
  pub chat_room_describe_lem :
      (w : List ℕ) (ws : List (List ℕ)) (roomstr : Txt)
      → IsToken w
      → All IsToken ws
      → bytes roomstr ≡ w ++ behind ws
      → chat_room_describe X user_count roomstr
        ≡ active_rooms ∷ (lines_of user_count (w ∷ ws) ++ (end_of_list ∷ []))
  unfolding chat_room_describe
  chat_room_describe_lem w ws roomstr token h e =
      let (found, rest) = next_word X roomstr destroyed w (behind ws) e token (behind-Stops ws) in
      let rounds = length (bytes roomstr) in
      let fuel : rounds + 1 ≡ suc rounds = omega arith in
      let enough : length ws < rounds =
        rw e (omega (arith, length-append w (behind ws), length-behind ws h, token.1)) in
      let looped : describe_loop X user_count (rounds + 1) roomstr destroyed
          ≡ lines_of user_count (w ∷ ws) =
        ap (λ (n : ℕ). describe_loop X user_count n roomstr destroyed) fuel
        ∙ line_step rounds roomstr destroyed w found token
        ∙ ap (λ (l : List Line). room_line w (fixup (user_count w)) ∷ l)
            (describe_lines ws rounds (scanner_next_token X roomstr destroyed).0 destroyed enough h
              rest) in
      ap (λ (l : List Line). active_rooms ∷ (l ++ (end_of_list ∷ []))) looped
