-- ===== src/Http/Release.antt =====
-- When a connection is given back, and what is closed then.
use nginz.Prelude.{
  ℕ, ◌-◌, ◌≡◌, refl, sym, ap, ◌∙◌, ◌⊎◌, inl, inr, Bool, true, false, not, ◌||◌, Option, none, some,
  List, ◌∷◌, arith, ltb, ◌==◌, if◌then◌else◌, ==_refl, Bool-cases, length,
}
use nginz.Xtring.{Xtring}
use nginz.EventLoop.{EventLoop, event_loop_unregister_fd}
use nginz.Http.Parse.{http_url_parse}
use nginz.Http.Connection.{
  minus_one, HttpConnection, Web, with_http, close_fd, close_via, default_http_close,
}
use nginz.Http.Handle.{
  Reply, nginz_max_http_msg_size, http_response_test_and_close, say_not_found, http_url_go,
  end_client, after_request, handle_request, http_on_client_data,
}

-- A connection that is not chained to another one is closed: it has no descriptor, and the last
-- things done to the table and to the descriptors are that this one is unregistered, and closed
-- unless the connection is on a soft quit.
abbrev pub IsShut : (X : Xtring) → ℕ → Web X → Type 0
IsShut X fd t =
    t.http.bubble_up ≡ none
    → (t.http.fd ≡ none)
      × ((l : EventLoop) × (t.loop ≡ event_loop_unregister_fd fd l))
      × ((t.http.soft_quit ≡ true) ⊎ ((rest : List ℕ) × (t.closed ≡ fd ∷ rest)))

-- The connection has its descriptor, or is closed.
abbrev pub Holds : (X : Xtring) → ℕ → Web X → Type 0
Holds X fd t = (t.http.fd ≡ some fd) ⊎ IsShut X fd t

-- The connection is given back once, and is closed, or it has not quit.
abbrev pub IsReleased : (X : Xtring) → ℕ → ℕ → Web X → Type 0
IsReleased X fd refs t =
    ((t.refs ≡ refs - 1) × IsShut X fd t)
    ⊎ ((t.refs ≡ refs) × (t.http.quit ≡ false) × (t.http.soft_quit ≡ false))

soft_quit_cases :
    (b : Bool) (fd : ℕ) (l : List ℕ)
    → (b ≡ true) ⊎ ((rest : List ℕ) × ((if b then l else fd ∷ l) ≡ fd ∷ rest))
soft_quit_cases true fd l = inl refl
soft_quit_cases false fd l = inr (l, refl)

close_fd-none :
    (X : Xtring) (fd : ℕ) (o : Option ℕ) (s : Web X)
    → o ≡ none
    → IsShut X fd s
    → IsShut X fd (close_fd X o s)
unfolding close_fd
close_fd-none X fd none s e shut = shut
close_fd-none X fd (some d) s e shut = cc

close_fd_lem :
    (X : Xtring) (fd : ℕ) (s : Web X)
    → s.http.bubble_up ≡ none
    → Holds X fd s
    → ((close_fd X s.http.fd s).refs ≡ s.refs) × IsShut X fd (close_fd X s.http.fd s)
unfolding close_fd
close_fd_lem X fd s alone (inl e) =
    rw e (refl, λ k. (refl, (s.loop, refl), soft_quit_cases s.http.soft_quit fd s.closed))
close_fd_lem X fd s alone (inr shut) =
    (rw ((shut alone).0) refl, close_fd-none X fd s.http.fd s (shut alone).0 shut)

module _ (X : Xtring) {W : Type 0} where
  open X use {Txt, bytes, char_at}

  -- What closes another stream changes nothing of this connection.
  abbrev pub IsForeign : (ℕ → Web X × W → Web X × W) → Type 0
  IsForeign close_up =
      (u : ℕ) (s : Web X × W)
      → ((close_up u s).0.http ≡ s.0.http) × ((close_up u s).0.refs ≡ s.0.refs)

  -- A plugin takes no reference to the connection and gives none back, and leaves it its
  -- descriptor, or closed.
  abbrev pub IsPlugin : ℕ → (List ℕ → Web X × W → ℕ × (Web X × W)) → Type 0
  IsPlugin fd bridge_call =
      (l : List ℕ) (s : Web X × W)
      → ((bridge_call l s).1.0.refs ≡ s.0.refs)
        × (s.0.http.fd ≡ some fd → Holds X fd (bridge_call l s).1.0)

  module _ (close_up : ℕ → Web X × W → Web X × W) (send : HttpConnection X → Reply → W → W)
      (bridge_call : List ℕ → Web X × W → ℕ × (Web X × W)) where
    close_via_lem :
        (fd : ℕ) (o : Option ℕ) (s : Web X × W)
        → IsForeign close_up
        → s.0.http.bubble_up ≡ o
        → Holds X fd s.0
        → ((close_via X close_up o s).0.refs ≡ s.0.refs) × IsShut X fd (close_via X close_up o s).0
    unfolding close_via
    close_via_lem fd none (s, w) foreign e held = close_fd_lem X fd s e held
    close_via_lem fd (some u) s foreign e held =
        let (same, refs) = foreign u s in
        (
          refs,
          λ k.
              let no : some u ≡ none =
                sym e ∙ ap (λ (h : HttpConnection X). h.bubble_up) (sym same) ∙ k in
              cc,
        )

    close_lem :
        (fd : ℕ) (s : Web X × W)
        → IsForeign close_up
        → Holds X fd s.0
        → ((default_http_close X close_up s).0.refs ≡ s.0.refs)
          × IsShut X fd (default_http_close X close_up s).0
    unfolding default_http_close
    close_lem fd s foreign held = close_via_lem fd s.0.http.bubble_up s foreign refl held

    url_go-Holds :
        (fd : ℕ) (target : Txt) (s : Web X × W)
        → IsForeign close_up
        → IsPlugin fd bridge_call
        → s.0.http.fd ≡ some fd
        → ((http_url_go X close_up send bridge_call target s).1.0.refs ≡ s.0.refs)
          × Holds X fd (http_url_go X close_up send bridge_call target s).1.0
    unfolding http_url_go http_response_test_and_close say_not_found
    url_go-Holds fd target (s, w) foreign plugin mine =
        elim (Bool-cases (length (bytes target) == 0 || length (bytes target) == 1)) [
          | inl short ↦
              let (refs, shut) = close_lem fd _ foreign (inl mine) in rw short (refs, inr shut)
          | inr long ↦ elim (Bool-cases (char_at target 5 == 95)) [
            | inl hidden ↦
                let (refs, shut) = close_lem fd _ foreign (inl mine) in
                rw (long, hidden) (refs, inr shut)
            | inr plain ↦ let (refs, held) = plugin _ _ in rw (long, plain) (refs, held mine)
          ]
        ]

    after_request_release :
        (fd response refs : ℕ) (s : Web X × W)
        → IsForeign close_up
        → s.0.refs ≡ refs
        → Holds X fd s.0
        → IsReleased X fd refs (after_request X close_up send bridge_call response s).1.0
    unfolding after_request
    after_request_release fd response refs (s, w) foreign e held =
        elim (Bool-cases (s.http.soft_quit || s.http.quit)) [
          | inl quit ↦
              let c =
                close_lem fd (with_http X (record s.http { content = X.destroyed }) s, w) foreign
                  held in
              rw quit (inl (ap (λ (n : ℕ). n - 1) (c.0 ∙ e), c.1))
          | inr stays ↦ rw stays (inr (e, ground arith, ground arith))
        ]

    handle_request_release :
        (fd : ℕ) (packet : List ℕ) (s : Web X × W)
        → IsForeign close_up
        → IsPlugin fd bridge_call
        → s.0.http.fd ≡ some fd
        → IsReleased X fd s.0.refs (handle_request X close_up send bridge_call packet s).1.0
    unfolding handle_request
    handle_request_release fd packet (s, w) foreign plugin mine =
        let p =
          http_url_parse X (X.of_bytes packet)
            (record { ok = true; target_url = X.destroyed; content = s.http.content }) in
        let t = with_http X (record s.http { content = p.content }) s in
        elim (Bool-cases p.ok) [
          | inl ok ↦
              let r = http_url_go X close_up send bridge_call p.target_url (t, w) in
              let (refs, held) = url_go-Holds fd p.target_url (t, w) foreign plugin mine in
              rw ok (after_request_release fd r.0 s.refs r.1 foreign refs held)
          | inr bad ↦
              rw bad (after_request_release fd minus_one s.refs (t, w) foreign refl (inl mine))
        ]

    -- Where a client's descriptor has an answer that is no failure, the call returns, and either it
    -- has given the connection back once, or it has given nothing back and the connection has not
    -- quit. A connection that is given back and not chained to another one is closed: it has no
    -- descriptor, which was unregistered last, and closed last unless it is on a soft quit. A
    -- plugin keeps the references as they are, and leaves the connection its descriptor or closed,
    -- and what closes another stream does not touch the connection.
    pub http_on_client_data-release :
        (recv : ℕ → W → Option (List ℕ) × W) (fd : ℕ) (packet : List ℕ) (s : Web X × W)
        → IsForeign close_up
        → IsPlugin fd bridge_call
        → s.0.http.fd ≡ some fd
        → (recv fd s.1).0 ≡ some packet
        → (r : ℕ × (Web X × W)) × (http_on_client_data X close_up send bridge_call recv fd s
            ≡ some r)
          × IsReleased X fd s.0.refs r.1.0
    unfolding http_on_client_data end_client
    http_on_client_data-release recv fd packet (s, w) foreign plugin mine came =
        let w' = (recv fd w).1 in
        elim (Bool-cases
          (length packet == 0 || not (ltb (length packet) nginz_max_http_msg_size))) [
            | inl ends ↦
                let c = close_lem fd (s, w') foreign (inl mine) in
                (
                  end_client X close_up send bridge_call (s, w'),
                  rw (mine, ==_refl fd, came, ends) refl,
                  inl (ap (λ (n : ℕ). n - 1) c.0, c.1),
                )
            | inr goes ↦ (
              handle_request X close_up send bridge_call packet (s, w'),
              rw (mine, ==_refl fd, came, goes) refl,
              handle_request_release fd packet (s, w') foreign plugin mine,
            )
          ]
