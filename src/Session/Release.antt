-- ===== src/Session/Release.antt =====
-- The end of a connection, and who holds it then.
use nginz.Prelude.{
  ℕ, ◌+◌, ◌≡◌, refl, sym, ◌∙◌, ◌≢◌, ◌⊎◌, inl, inr, Bool, true, false, Option, none, some, List, ◌∷◌,
  arith, ◌==◌, if◌then◌else◌, Bool-cases,
}
use nginz.EventLoop.{EventLoop, event_loop_unregister_fd}
use nginz.Session.{Session, is_quitting, mark_quit, close_fd, close_via, default_chat_close}

-- Nothing of what the end of a connection turns on has changed.
abbrev pub Keeps : Session → Session → Type 0
Keeps s t =
    (t.refs ≡ s.refs)
    × (t.zombies ≡ s.zombies)
    × (t.chat.state.zombie ≡ s.chat.state.zombie)
    × (is_quitting t.chat.state ≡ is_quitting s.chat.state)
    × (t.chat.quited_at ≡ s.chat.quited_at)

-- The references and the place in the list are as before, as the hooks leave them.
abbrev pub SameHolders : Session → Session → Type 0
SameHolders s t =
    (t.refs ≡ s.refs) × (t.zombies ≡ s.zombies) × (t.chat.state.zombie ≡ s.chat.state.zombie)

-- A connection that is not chained to another stream is closed: it has no descriptor, and the last
-- things done to the table and to the descriptors are that this one is unregistered, and closed
-- unless the connection is on a soft quit.
abbrev pub IsShut : ℕ → Session → Type 0
IsShut fd t =
    t.chat.bubble_up ≡ none
    → (t.chat.fd ≡ none)
      × ((l : EventLoop) × (t.loop ≡ event_loop_unregister_fd fd l))
      × ((t.chat.state.soft_quit ≡ true) ⊎ ((rest : List ℕ) × (t.closed ≡ fd ∷ rest)))

-- The connection has its descriptor, or is closed.
abbrev pub Holds : ℕ → Session → Type 0
Holds fd t = (t.chat.fd ≡ some fd) ⊎ IsShut fd t

-- The stream, the table and the descriptors are as before.
abbrev pub KeepsStream : Session → Session → Type 0
KeepsStream s t =
    (t.chat.fd ≡ s.chat.fd)
    × (t.chat.bubble_up ≡ s.chat.bubble_up)
    × (t.loop ≡ s.loop)
    × (t.closed ≡ s.closed)
    × (t.chat.state.soft_quit ≡ s.chat.state.soft_quit)

Holds-KeepsStream : (fd : ℕ) (s t : Session) → KeepsStream s t → Holds fd s → Holds fd t
Holds-KeepsStream fd s t (f, b, l, c, q) (inl mine) = inl (f ∙ mine)
Holds-KeepsStream fd s t (f, b, l, c, q) (inr shut) = inr (λ alone.
    let (gone, (old, unregistered), closed) = shut (sym b ∙ alone) in
    (f ∙ gone, (old, l ∙ unregistered), either_closed closed))
  where
    either_closed :
        (s.chat.state.soft_quit ≡ true) ⊎ ((rest : List ℕ) × (s.closed ≡ fd ∷ rest))
        → (t.chat.state.soft_quit ≡ true) ⊎ ((rest : List ℕ) × (t.closed ≡ fd ∷ rest))
    either_closed (inl soft) = inl (q ∙ soft)
    either_closed (inr (rest, e)) = inr (rest, c ∙ e)

abbrev pub IsClosed : ℕ → Session → Session → Type 0
IsClosed fd s t =
    (t.refs ≡ s.refs)
    × (t.zombies ≡ s.zombies)
    × (t.chat.state.zombie ≡ s.chat.state.zombie)
    × (is_quitting t.chat.state ≡ true)
    × (t.chat.quited_at ≢ 0)
    × IsShut fd t

-- The reference of the event loop has gone over to the list of the zombies, where the connection
-- stands once more than before.
abbrev pub IsZombie : ℕ → Session → Session → Type 0
IsZombie fd s t =
    (t.refs ≡ s.refs) × (t.zombies ≡ s.zombies + 1) × (t.chat.state.zombie ≡ true) × IsShut fd t

abbrev pub IsAlive : Session → Session → Type 0
IsAlive s t = SameHolders s t × (is_quitting t.chat.state ≡ false) × (t.chat.error ≡ false)

Keeps-trans : (s t u : Session) → Keeps s t → Keeps t u → Keeps s u
Keeps-trans s t u (a, b, c, d, e) (a', b', c', d', e') = (a' ∙ a, b' ∙ b, c' ∙ c, d' ∙ d, e' ∙ e)

mark_quit_lem :
    (now : ℕ) (s : Session)
    → now ≢ 0
    → SameHolders s (mark_quit now s)
      × (is_quitting (mark_quit now s).chat.state ≡ true)
      × ((mark_quit now s).chat.quited_at ≢ 0)
unfolding mark_quit
mark_quit_lem now s pos =
    let time : (if s.chat.quited_at == 0 then now else s.chat.quited_at) ≢ 0 =
      elim (Bool-cases (s.chat.quited_at == 0)) [
        | inl z ↦ rw z pos
        | inr z ↦ rw z (λ e. ground arith)
      ] in
    elim (Bool-cases (is_quitting s.chat.state)) [
      | inl q ↦ rw q ((refl, refl, refl), q, time)
      | inr q ↦ rw q ((refl, refl, refl), refl, time)
    ]

soft_quit_cases :
    (b : Bool) (fd : ℕ) (l : List ℕ)
    → (b ≡ true) ⊎ ((rest : List ℕ) × ((if b then l else fd ∷ l) ≡ fd ∷ rest))
soft_quit_cases true fd l = inl refl
soft_quit_cases false fd l = inr (l, refl)

close_fd-Keeps : (o : Option ℕ) (s : Session) → Keeps s (close_fd o s)
unfolding close_fd
close_fd-Keeps none s = (refl, refl, refl, refl, refl)
close_fd-Keeps (some d) s = (refl, refl, refl, refl, refl)

close_fd-none :
    (fd : ℕ) (o : Option ℕ) (s : Session) → o ≡ none → IsShut fd s → IsShut fd (close_fd o s)
unfolding close_fd
close_fd-none fd none s e shut = shut
close_fd-none fd (some d) s e shut = cc

close_fd-IsShut :
    (fd : ℕ) (s : Session) → s.chat.bubble_up ≡ none → Holds fd s → IsShut fd (close_fd s.chat.fd s)
unfolding close_fd
close_fd-IsShut fd s alone (inl e) =
    rw e (λ k. (refl, (s.loop, refl), soft_quit_cases s.chat.state.soft_quit fd s.closed))
close_fd-IsShut fd s alone (inr shut) = close_fd-none fd s.chat.fd s (shut alone).0 shut

-- What leaves a room or logs off.
abbrev pub IsTame : {W : Type 0} → (Session × W → Session × W) → Type 0
IsTame {W} f = (s : Session × W) → Keeps s.0 (f s).0 × KeepsStream s.0 (f s).0

-- What closes another stream.
abbrev pub IsForeign : {W : Type 0} → (ℕ → Session × W → Session × W) → Type 0
IsForeign {W} f =
    (u : ℕ) (s : Session × W)
    → Keeps s.0 (f u s).0 × ((f u s).0.chat.bubble_up ≡ s.0.chat.bubble_up)

module _ {W : Type 0} (now : ℕ) (leave logoff : Session × W → Session × W)
    (close_up : ℕ → Session × W → Session × W) (pos : now ≢ 0) (tame_leave : IsTame leave)
    (tame_logoff : IsTame logoff) (foreign : IsForeign close_up) where
  close_via_lem :
      (fd : ℕ) (o : Option ℕ) (s : Session × W)
      → s.0.chat.bubble_up ≡ o
      → Holds fd s.0
      → Keeps s.0 (close_via now leave logoff close_up o s).0
        × IsShut fd (close_via now leave logoff close_up o s).0
  unfolding close_via
  close_via_lem fd none (s, w) e held = (close_fd-Keeps s.chat.fd s, close_fd-IsShut fd s e held)
  close_via_lem fd (some u) s e held =
      let (keeps, up) = foreign u s in
      (keeps, λ k. let no : some u ≡ none = sym e ∙ sym up ∙ k in cc)

  tame_if :
      (b : Bool) (f : Session × W → Session × W) (s : Session × W)
      → IsTame f
      → Keeps s.0 (if b then f s else s).0 × KeepsStream s.0 (if b then f s else s).0
  tame_if true f s tame = tame s
  tame_if false f s tame = ((refl, refl, refl, refl, refl), (refl, refl, refl, refl, refl))

  mark_quit-KeepsStream : (s : Session) → KeepsStream s (mark_quit now s)
  unfolding mark_quit
  mark_quit-KeepsStream s = elim (Bool-cases (is_quitting s.chat.state)) [
    | inl q ↦ rw q (refl, refl, refl, refl, refl)
    | inr q ↦ rw q (refl, refl, refl, refl, refl)
  ]

  pub close_lem :
      (fd : ℕ) (s : Session × W)
      → Holds fd s.0
      → IsClosed fd s.0 (default_chat_close now leave logoff close_up s).0
  unfolding default_chat_close
  close_lem fd (s, w) held =
      let t : Session × W = (mark_quit now s, w) in
      let left = if t.0.chat.state.in_room then leave t else t in
      let off = if left.0.chat.state.logged_in then logoff left else left in
      let v = close_via now leave logoff close_up off.0.chat.bubble_up off in
      let ((a, b, c), q, time) = mark_quit_lem now s pos in
      let (leaves, stream_left) = tame_if t.0.chat.state.in_room leave t tame_leave in
      let (logs, stream_off) = tame_if left.0.chat.state.logged_in logoff left tame_logoff in
      let held_off = Holds-KeepsStream fd left.0 off.0 stream_off (
        Holds-KeepsStream fd t.0 left.0 stream_left
          (Holds-KeepsStream fd s t.0 (mark_quit-KeepsStream s) held)) in
      let (last, gone) = close_via_lem fd off.0.chat.bubble_up off refl held_off in
      let (a', b', c', q', time') =
        Keeps-trans t.0 left.0 v.0 leaves (Keeps-trans left.0 off.0 v.0 logs last) in
      (a' ∙ a, b' ∙ b, c' ∙ c, q' ∙ q, λ z. time (sym time' ∙ z), gone)
