-- ===== src/Welcome/Tests.antt =====
-- Two log-ins on a small example.
use nginz.Prelude.{ℕ, ◌≡◌, refl, true, false, some, List, [], ◌∷◌, ◌++◌, arith}
use nginz.Xtring.Plain.{PlainTxt, plain, plain_xtring}
use nginz.Scanner.{scanner_next_token}
use nginz.Welcome.{
  Greeting, nothing, welcome, Guest, Lobby, on_asyncchat_login, on_asyncchat_login_hook,
}
use nginz.Welcome.Dialogue.{on_asyncchat_login-hook}

abbrev stranger : Guest
stranger = record {
  name = [];
  state = record {
    logged_in = false;
    in_room = false;
    quit = false;
    soft_quit = false;
    zombie = false;
  };
  answers_login = true;
}

abbrev lobby : Lobby
lobby = record { guests = λ c. stranger; greet_on_login = nothing }

-- The world notes who is sent what, and which names are tried.
abbrev note_send : ℕ → Greeting → List (ℕ × Greeting) → List (ℕ × Greeting)
note_send c g log = log ++ (c, g) ∷ []

abbrev note_try : List ℕ → ℕ → List (ℕ × Greeting) → List (ℕ × Greeting)
note_try name c log = log ++ (c, nothing) ∷ []

-- The second client answers "bo\n"; the first one is "al".
abbrev answer : PlainTxt
answer = plain (98 ∷ 111 ∷ 10 ∷ []) 64

abbrev name_of_answer : PlainTxt
name_of_answer = (scanner_next_token plain_xtring answer (plain [] 0)).1

is_word : name_of_answer.content ≡ 98 ∷ 111 ∷ []
unfolding scanner_next_token
is_word = refl

on_asyncchat_login-hook_example :
    (t : Lobby × List (ℕ × Greeting)) × (on_asyncchat_login_hook note_send note_try
        (λ k s. some k)
        1
        true
        (97 ∷ 108 ∷ [])
        (lobby, [])
      ≡ t)
    × ((t.0.guests 1).name ≡ 97 ∷ 108 ∷ [])
    × ((t.0.guests 1).state.logged_in ≡ true)
    × (t.1 ≡ note_send 1 (welcome (97 ∷ 108 ∷ [])) [])
    × (on_asyncchat_login note_send note_try plain_xtring 2 answer t
        ≡ some (t.0, note_send 2 (welcome (97 ∷ 108 ∷ [])) (note_try name_of_answer.content 2 t.1)))
on_asyncchat_login-hook_example =
    on_asyncchat_login-hook note_send note_try plain_xtring (λ k s. some k) 1 1 2 (97 ∷ 108 ∷ [])
      answer (lobby, []) (omega arith) refl (omega arith) refl refl (rw is_word (omega arith))
      (rw is_word (omega arith))
