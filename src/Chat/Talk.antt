-- ===== src/Chat/Talk.antt =====
-- Who hears what a user says.
use nginz.Prelude.{
  ℕ, ◌≡◌, refl, ap, ◌∙◌, inl, inr, Bool, true, false, ◌||◌, Option, some, List, [], ◌∷◌, ◌++◌,
  if◌then◌else◌, Bool-cases,
}
use mathlib.Core.List.{append-nil, append_assoc}
use nginz.Chat.{
  Chats, Notice, said, is_gone, is_skipped, default_chat_send, send_to_users,
  broadcast_callback_helper, broadcast_callback,
}

-- Streams that note what they are sent, and have no error.
abbrev pub note : ℕ → Notice → List (ℕ × Notice) → Bool × List (ℕ × Notice)
note c msg log = (false, log ++ (c, msg) ∷ [])

abbrev pub no_count : ℕ → ℕ → ℕ → List (ℕ × Notice) → List (ℕ × Notice)
no_count room_name user_count increment log = log

-- The message once for each user of the list, less the omitted one and those that are gone.
unfoldable pub heard : Option ℕ → Notice → Chats → List ℕ → List (ℕ × Notice)
heard omit msg s [] = []
heard omit msg s (c ∷ l) =
    let rest = heard omit msg s l in
    if is_skipped omit c || is_gone (s.connections c).state then rest else (c, msg) ∷ rest

send_to_users_log :
    (omit : Option ℕ) (l : List ℕ) (msg : Notice) (s : Chats) (log : List (ℕ × Notice))
    → send_to_users note no_count omit l msg (s, log) ≡ (s, log ++ heard omit msg s l)
unfolding send_to_users default_chat_send heard
send_to_users_log omit [] msg s log = rw append-nil refl
send_to_users_log omit (c ∷ l) msg s log = elim (Bool-cases (is_skipped omit c)) [
  | inl k ↦ rw k (send_to_users_log omit l msg s log)
  | inr k ↦ elim (Bool-cases (is_gone (s.connections c).state)) [
    | inl g ↦ rw (k, g) (send_to_users_log omit l msg s log)
    | inr g ↦
        rw (k, g) (send_to_users_log omit l msg s (log ++ (c, msg) ∷ []) ∙ rw append_assoc refl)
  ]
]

-- What a user of a room says is sent once to each user in the list of the room, in the order of
-- the list, but not to the user itself nor to those that quit, if no stream has an error.
pub broadcast_callback_log :
    (c r msg : ℕ) (s : Chats) (log : List (ℕ × Notice))
    → (s.connections c).callback_data ≡ some r
    → broadcast_callback note no_count c msg (s, log)
      ≡ (true, (s, log ++ heard (some c) (said (s.connections c).name msg) s (s.rooms r).user_list))
unfolding broadcast_callback broadcast_callback_helper
broadcast_callback_log c r msg s log e = rw e (
    ap (λ (t : Chats × List (ℕ × Notice)). (true, t))
      (send_to_users_log (some c) (s.rooms r).user_list (said (s.connections c).name msg) s log))
