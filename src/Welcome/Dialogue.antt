-- ===== src/Welcome/Dialogue.antt =====
-- Logging in, and what the shared buffer does to it.
use nginz.Prelude.{
  ℕ, ◌<◌, ◌≡◌, refl, ap, ◌≢◌, true, false, Option, some, List, arith, ltb, ◌==◌, ==_refl, ==_of_ne,
  ltb-true, length,
}
use nginz.Xtring.{Xtring}
use nginz.Scanner.{scanner_next_token}
use nginz.Welcome.{
  nginz_max_chat_user_name_size, Greeting, welcome, Lobby, is_connected, is_nothing,
  on_asyncchat_login, on_asyncchat_login_hook, check_name, send_greeting, answer_login, greet_user,
}

module _ {W : Type 0} (send : ℕ → Greeting → W → W) (try_login : List ℕ → ℕ → W → W) where
  -- A name that may be tried is asked for at the database, and the client is sent what the buffer
  -- holds from before.
  ask_name :
      (X : Xtring) (c : ℕ) (answer : X.Txt) (s : Lobby × W) (g : Greeting)
      → (length (X.bytes answer) == 0) ≡ false
      → is_connected (s.0.guests c).state ≡ true
      → 0 < length (X.bytes (scanner_next_token X answer X.destroyed).1)
      → length (X.bytes (scanner_next_token X answer X.destroyed).1) < nginz_max_chat_user_name_size
      → s.0.greet_on_login ≡ g
      → is_nothing g ≡ false
      → on_asyncchat_login send try_login X c answer s
        ≡ some
            (s.0, send c g (try_login (X.bytes (scanner_next_token X answer X.destroyed).1) c s.1))
  unfolding on_asyncchat_login check_name send_greeting
  ask_name X c answer (s, w) g filled connected long short held loud =
      let name = X.bytes (scanner_next_token X answer X.destroyed).1 in
      let some_name : (length name == 0) ≡ false = ground arith in
      let fits : ltb (length name) nginz_max_chat_user_name_size ≡ true = ltb-true _ _ short in
      let here : is_nothing s.greet_on_login ≡ false = rw held loud in
      rw (filled, connected, some_name, fits, here)
        (ap (λ (x : Greeting). some (s, send c x (try_login name c w))) held)

  -- Once a first user is logged in, the welcome stays in the buffer: the second client, who answers
  -- with a name that may be tried, is sent the first one's welcome before the database has said
  -- anything about the second name.
  pub on_asyncchat_login-hook :
      (X : Xtring) (get : ℕ → Lobby → Option ℕ) (token first second : ℕ) (name : List ℕ)
      (answer : X.Txt) (s : Lobby × W)
      → 0 < length name
      → get token s.0 ≡ some first
      → first ≢ second
      → (length (X.bytes answer) == 0) ≡ false
      → is_connected (s.0.guests second).state ≡ true
      → 0 < length (X.bytes (scanner_next_token X answer X.destroyed).1)
      → length (X.bytes (scanner_next_token X answer X.destroyed).1) < nginz_max_chat_user_name_size
      → (t : Lobby × W) × (on_asyncchat_login_hook send try_login get token true name s ≡ t)
        × ((t.0.guests first).name ≡ name)
        × ((t.0.guests first).state.logged_in ≡ true)
        × (t.1 ≡ send first (welcome name) s.1)
        × (on_asyncchat_login send try_login X second answer t
            ≡ some (
              t.0,
              send second
                  (welcome name)
                  (try_login (X.bytes (scanner_next_token X answer X.destroyed).1) second t.1),
            ))
  unfolding on_asyncchat_login_hook answer_login greet_user send_greeting
  on_asyncchat_login-hook X get token first second name answer (s, w) named found ne filled
        connected long short =
      let some_name : (length name == 0) ≡ false = ground arith in
      let t = on_asyncchat_login_hook send try_login get token true name (s, w) in
      let here : (first == first) ≡ true = ==_refl first in
      let other : (first == second) ≡ false = ==_of_ne first second ne in
      (
        t,
        refl,
        rw (some_name, found, here) refl,
        rw (some_name, found, here) refl,
        rw (some_name, found) refl,
        ask_name X second answer t (welcome name) filled (rw (some_name, found, other) connected)
            long short (rw (some_name, found) refl) refl,
      )
