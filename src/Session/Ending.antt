-- ===== src/Session/Ending.antt =====
-- What becomes of a connection whose client has sent something, or has gone.
use nginz.Prelude.{
  ℕ, ◌+◌, ◌-◌, ◌≡◌, refl, sym, ap, ◌∙◌, ◌≢◌, ◌⊎◌, inl, inr, Bool, true, false, not, ◌&&◌, ◌||◌,
  Option, some, List, arith, ltb, ◌==◌, if◌then◌else◌, ==_refl, ==_of_ne, Bool-cases, Option-cases,
  assert, ◌>>=◌, ◌>>◌, length, get_or,
}
use nginz.Chat.{minus_one}
use nginz.Session.{
  nginz_max_chat_msg_size, ChatConnection, Session, unref, is_quitting, chat_zombie_add,
  default_chat_close, default_chat_send,
}
use nginz.Session.Accept.{
  Reply, cannot_process, end_chat, end_client, refuse, process_request, handle_chat_request,
  after_request, receive, on_client_data,
}
use nginz.Session.Release.{
  SameHolders, IsShut, Holds, IsClosed, IsZombie, IsAlive, IsTame, IsForeign, close_lem,
}

add_again : (s : Session) → s.chat.state.zombie ≡ true → chat_zombie_add s ≡ some s
unfolding chat_zombie_add
add_again s z =
    ap
      (λ (b : Bool). if b then some s else (do
        assert (not (s.chat.quited_at == 0))
        some (record s {
          chat = record s.chat { state = record s.chat.state { zombie = true } };
          zombies = s.zombies + 1;
          refs = s.refs + 1;
        })))
      z

by_cases : {A : Type 0} (P : A → Type 0) (b : Bool) (x y : A) → P x → P y → P (if b then x else y)
by_cases P true x y h k = h
by_cases P false x y h k = k

-- The holders are the same, and the connection has its descriptor or is closed, as before.
abbrev pub Carries : ℕ → Session → Session → Type 0
Carries fd s t = SameHolders s t × (Holds fd s → Holds fd t)

Carries-trans : (fd : ℕ) (s t u : Session) → Carries fd s t → Carries fd t u → Carries fd s u
Carries-trans fd s t u ((a, b, c), h) ((a', b', c'), h') =
    ((a' ∙ a, b' ∙ b, c' ∙ c), λ held. h' (h held))

module _ {W : Type 0} (now : ℕ) (leave logoff : Session × W → Session × W)
    (close_up : ℕ → Session × W → Session × W) (pos : now ≢ 0) (tame_leave : IsTame leave)
    (tame_logoff : IsTame logoff) (foreign : IsForeign close_up) where
  -- The connection with one reference more, for the list.
  abbrev Buried : ℕ → Session → Session → Type 0
  Buried fd s t =
      (t.refs ≡ s.refs + 1)
      × (t.zombies ≡ s.zombies + 1)
      × (t.chat.state.zombie ≡ true)
      × (is_quitting t.chat.state ≡ true)
      × IsShut fd t

  bury :
      (fd : ℕ) (s : Session × W)
      → Holds fd s.0
      → s.0.chat.state.zombie ≡ false
      → (u : Session × W) × (end_chat now leave logoff close_up s ≡ some u) × Buried fd s.0 u.0
  unfolding end_chat chat_zombie_add
  bury fd s held alive =
      let t = default_chat_close now leave logoff close_up s in
      let (a, b, c, q, time, gone) =
        close_lem now leave logoff close_up pos tame_leave tame_logoff foreign fd s held in
      let z : t.0.chat.state.zombie ≡ false = c ∙ alive in
      (
        (
          record t.0 {
            chat = record t.0.chat { state = record t.0.chat.state { zombie = true } };
            zombies = t.0.zombies + 1;
            refs = t.0.refs + 1;
          },
          t.1,
        ),
        rw (z, ==_of_ne t.0.chat.quited_at 0 time) refl,
        (ap (λ (n : ℕ). n + 1) a, ap (λ (n : ℕ). n + 1) b, refl, q, gone),
      )

  bury_again :
      (fd : ℕ) (s : Session × W)
      → Holds fd s.0
      → s.0.chat.state.zombie ≡ true
      → (u : Session × W) × (end_chat now leave logoff close_up s ≡ some u) × IsClosed fd s.0 u.0
  unfolding end_chat chat_zombie_add
  bury_again fd s held dead =
      let t = default_chat_close now leave logoff close_up s in
      let closed =
        close_lem now leave logoff close_up pos tame_leave tame_logoff foreign fd s held in
      let z : t.0.chat.state.zombie ≡ true = closed.2 ∙ dead in
      (t, ap (λ (o : Option Session). o >>= λ u. some (u, t.1)) (add_again t.0 z), closed)

  end_client_lem :
      (fd : ℕ) (s : Session × W)
      → Holds fd s.0
      → s.0.chat.state.zombie ≡ false
      → (r : ℕ × (Session × W)) × (end_client now leave logoff close_up s ≡ some r)
        × (r.0 ≡ minus_one)
        × IsZombie fd s.0 r.1.0
  unfolding end_client
  end_client_lem fd s held alive =
      let (u, done, (a, b, c, q, gone)) = bury fd s held alive in
      ((minus_one, (unref u.0, u.1)), rw done refl, refl, (omega (arith, a), b, c, gone))

  -- The answer is 0 for a connection that goes on, and -1 for one that has ended.
  abbrev pub Outcome : ℕ → Session → ℕ × (Session × W) → Type 0
  Outcome fd s r = ((r.0 ≡ 0) × IsAlive s r.1.0) ⊎ ((r.0 ≡ minus_one) × IsZombie fd s r.1.0)

  -- A hook takes no reference, does not touch the list, and leaves the connection its descriptor or
  -- closed.
  abbrev pub IsHook : (Session × W → Session × W) → Type 0
  IsHook f = (fd : ℕ) (s : Session × W) → Carries fd s.0 (f s).0

  is_softer :
      (fd : ℕ) (s t : Session)
      → t.chat.fd ≡ s.chat.fd
      → t.chat.bubble_up ≡ s.chat.bubble_up
      → t.loop ≡ s.loop
      → t.chat.state.soft_quit ≡ true
      → Holds fd s
      → Holds fd t
  is_softer fd s t f b l q (inl mine) = inl (f ∙ mine)
  is_softer fd s t f b l q (inr shut) = inr (λ alone.
      let (gone, (old, unregistered), closed) = shut (sym b ∙ alone) in
      (f ∙ gone, (old, l ∙ unregistered), inl q))

  module _ (on_command : List ℕ → Session × W → Bool × (Session × W))
      (on_response : List ℕ → Session × W → Session × W)
      (real_send : ChatConnection → Reply → W → Bool × W)
      (commands : (l : List ℕ) → IsHook (λ s. (on_command l s).1))
      (responses : (l : List ℕ) → IsHook (on_response l)) where
    refuse_lem : IsHook (refuse now leave logoff close_up on_command on_response real_send)
    unfolding refuse default_chat_send
    refuse_lem fd (s, w) =
        let sent = real_send s.chat cannot_process w in
        let t : Session = record s { chat = record s.chat { error = sent.0 } } in
        let soft : Session = record t {
          chat = record t.chat { state = record t.chat.state { soft_quit = true } };
        } in
        let same : Carries fd s s = ((refl, refl, refl), λ held. held) in
        let P : Session × W → Type 0 = λ x. Carries fd s x.0 in
        by_cases P (is_quitting s.chat.state) (s, w) _ same
          (by_cases P (is_quitting s.chat.state || s.chat.state.zombie) (s, w) _ same
            (by_cases (λ x. Carries fd s x) sent.0 soft t
              ((refl, refl, refl), is_softer fd s soft refl refl refl refl)
              ((refl, refl, refl), λ held. held)))

    process_lem :
        (request : List ℕ)
        → IsHook
            (process_request now leave logoff close_up on_command on_response real_send request)
    unfolding process_request
    process_lem request fd s =
        let P : Session × W → Type 0 = λ x. Carries fd s.0 x.0 in
        let done = (on_command request s).1 in
        let refused : Session × W → Session × W =
          refuse now leave logoff close_up on_command on_response real_send in
        by_cases P (get_or request 0 0 == 47 && s.0.chat.state.logged_in) _ _
          (by_cases P (on_command request s).0 done (refused done) (commands request fd s) (
            Carries-trans fd s.0 done.0 (refused done).0 (commands request fd s)
              (refuse_lem fd done)))
          (by_cases P s.0.chat.has_callback (on_response request s) (refused s)
            (responses request fd s) (refuse_lem fd s))

    -- Behind the end of the connection the reference of the event loop goes.
    after_bury :
        (fd : ℕ) (s t : Session × W)
        → Buried fd s.0 t.0
        → (r : ℕ × (Session × W)) × (after_request now leave logoff close_up on_command on_response
              real_send
              (minus_one, t)
            ≡ some r)
          × (r.0 ≡ minus_one)
          × IsZombie fd s.0 r.1.0
    unfolding after_request
    after_bury fd s t (a, b, c, q, gone) =
        let (u, done, (a', b', c', q', time, gone')) = bury_again fd t (inr gone) c in
        (
          (minus_one, (unref u.0, u.1)),
          rw (q, done) refl,
          refl,
          (omega (arith, a, a'), b' ∙ b, c' ∙ c, gone'),
        )

    handle_lem :
        (fd : ℕ) (request : List ℕ) (s : Session × W)
        → Holds fd s.0
        → (length request == 0) ≡ false
        → s.0.chat.state.zombie ≡ false
        → (r : ℕ × (Session × W)) × ((handle_chat_request now leave logoff close_up on_command
                on_response real_send request s
              >>= after_request now leave logoff close_up on_command on_response real_send)
            ≡ some r)
          × Outcome fd s.0 r
    unfolding handle_chat_request
    handle_lem fd request s held filled alive =
        let done =
          process_request now leave logoff close_up on_command on_response real_send request s in
        let ((a, b, c), carries) = process_lem request fd s in
        elim (Bool-cases (get_or request (length request - 1) 0 == 10)) [
          | inr garbage ↦
              let (u, buried, dead) = bury fd s held alive in
              let (r, after, minus, zombie) = after_bury fd s u dead in
              (r, rw (filled, garbage, buried) after, inr (minus, zombie))
          | inl line ↦ elim (Bool-cases (done.0.chat.error || is_quitting done.0.chat.state)) [
            | inl ends ↦
                let (u, buried, (a', b', c', q, gone)) = bury fd done (carries held) (c ∙ alive) in
                let (r, after, minus, zombie) =
                  after_bury fd s u (omega (arith, a, a'), omega (arith, b, b'), c', q, gone) in
                (r, rw (filled, line, ends, buried) after, inr (minus, zombie))
            | inr stays ↦
                let quiet : is_quitting done.0.chat.state ≡ false = ground arith in
                let calm : done.0.chat.error ≡ false = ground arith in
                (
                  (0, done),
                  rw (filled, line, stays) (unfold after_request in rw quiet refl),
                  inl (refl, ((a, b, c), quiet, calm)),
                )
          ]
        ]

    client_eq :
        (recv : ℕ → W → Option (List ℕ) × W) (fd : ℕ) (s : Session × W)
        → s.0.chat.fd ≡ some fd
        → is_quitting s.0.chat.state ≡ false
        → on_client_data now leave logoff close_up on_command on_response real_send false recv fd s
          ≡ receive now leave logoff close_up on_command on_response real_send
              (recv fd s.1).0
              (s.0, (recv fd s.1).1)
    unfolding on_client_data
    client_eq recv fd s mine stays =
        let received : Option (ℕ × (Session × W)) =
          receive now leave logoff close_up on_command on_response real_send (recv fd s.1).0
            (s.0, (recv fd s.1).1) in
        let read : ℕ → Option (ℕ × (Session × W)) = λ sock. assert (sock == fd) >> received in
        ap
          (λ (b : Bool).
            if b then end_client now leave logoff close_up s else (s.0.chat.fd >>= read))
          stays
        ∙ ap (λ (o : Option ℕ). o >>= read) mine
        ∙ ap (λ (b : Bool). assert b >> received) (==_refl fd)

    -- For a connection that has not ended, whose descriptor the event loop names, the call returns.
    -- Its answer is 0 when the connection goes on: then it has not quit, its stream has no error,
    -- and no one else holds it. Or it is -1, and the connection is once more in the list of the
    -- zombies, which holds the reference that the event loop had; if it is not chained to another
    -- stream it has no descriptor, which was unregistered last, and closed last unless the
    -- connection is on a soft quit. The clock does not show 0; leaving and logging off touch none
    -- of this, closing another stream does not touch the connection, and the hooks take no
    -- reference and leave the connection its descriptor or closed.
    pub on_client_data-release :
        (recv : ℕ → W → Option (List ℕ) × W) (fd : ℕ) (s : Session × W)
        → s.0.chat.fd ≡ some fd
        → s.0.chat.state.zombie ≡ false
        → (r : ℕ × (Session × W)) × (on_client_data now leave logoff close_up on_command on_response
              real_send false recv fd s
            ≡ some r)
          × Outcome fd s.0 r
    unfolding on_client_data receive
    on_client_data-release recv fd (s, w) mine alive =
        elim (Bool-cases (is_quitting s.chat.state)) [
          | inl quits ↦
              let (r, done, minus, zombie) = end_client_lem fd (s, w) (inl mine) alive in
              (r, rw quits done, inr (minus, zombie))
          | inr stays ↦
              let w' = (recv fd w).1 in
              let (r', done', minus', zombie') = end_client_lem fd (s, w') (inl mine) alive in
              elim (Option-cases (recv fd w).0) [
                | inl failed ↦ (
                  r',
                  client_eq recv fd (s, w) mine stays ∙ rw failed done',
                  inr (minus', zombie'),
                )
                | inr (request, came) ↦
                    elim (Bool-cases
                      (length request == 0 || not (ltb (length request) nginz_max_chat_msg_size))) [
                        | inl ends ↦ (
                          r',
                          client_eq recv fd (s, w) mine stays ∙ rw (came, ends) done',
                          inr (minus', zombie'),
                        )
                        | inr goes ↦
                            let filled : (length request == 0) ≡ false = ground arith in
                            let (r, done, outcome) =
                              handle_lem fd request (s, w') (inl mine) filled alive in
                            (r, client_eq recv fd (s, w) mine stays ∙ rw (came, goes) done, outcome)
                      ]
              ]
        ]
