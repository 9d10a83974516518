-- ===== src/EventLoop/Dispatch.antt =====
-- The calls that one step makes for what `poll` reported.
use nginz.Prelude.{
  ℕ, zero, suc, ◌+◌, ◌-◌, ◌≤◌, ◌≡◌, refl, ap, ◌∙◌, inl, inr, true, false, ◌||◌, List, [], ◌∷◌, ◌++◌,
  arith, ltb, ◌==◌, if◌then◌else◌, Bool-cases, take,
}
use mathlib.Core.List.{append-nil, append_assoc}
use nginz.EventLoop.{
  max_poll_fd, PollFd, EventCallback, EventLoop, dispatch, event_loop_step_helper,
}

pub record Call : Type 0 where
  pub on_event : ℕ
  pub fd : ℕ
  pub revents : ℕ
  pub event_data : ℕ

-- A callback that notes its call and leaves the table alone.
abbrev pub note : ℕ → ℕ → ℕ → ℕ → EventLoop × List Call → EventLoop × List Call
note c fd revents x (s, log) =
    (s, log ++ record { on_event = c; fd = fd; revents = revents; event_data = x } ∷ [])

-- The calls that are due for the entries from `i` on: those that are live and have an event.
unfoldable pub due : EventLoop → ℕ → ℕ → List Call
due s i zero = []
due s i (suc n) =
    let p = s.internal_fds i in
    let c = s.internal_callback i in
    let rest = due s (i + 1) n in
    if p.events == 0 || p.revents == 0
    then rest
    else record { on_event = c.on_event; fd = p.fd; revents = p.revents; event_data = c.event_data }
      ∷ rest

nil_log :
    (s : EventLoop) (log : List Call) (count : ℕ)
    → ◌≡◌ {A = EventLoop × List Call} (s, log) (s, log ++ take count [])
nil_log s log zero = rw append-nil refl
nil_log s log (suc count) = rw append-nil refl

dispatch_log :
    (rounds i n count : ℕ) (s : EventLoop) (log : List Call)
    → i + n ≡ s.internal_nfds
    → n ≤ rounds
    → dispatch note rounds i count (s, log) ≡ (s, log ++ take count (due s i n))
unfolding dispatch due
dispatch_log zero i zero count s log e fuel = nil_log s log count
dispatch_log zero i (suc n) count s log e fuel = absurd (omega arith)
dispatch_log (suc rounds) i zero count s log e fuel =
    let t : ltb i s.internal_nfds ≡ false = ground arith in rw t (nil_log s log count)
dispatch_log (suc rounds) i (suc n) zero s log e fuel =
    let t : ltb i s.internal_nfds ≡ true = ground arith in rw (t, append-nil) refl
dispatch_log (suc rounds) i (suc n) (suc count) s log e fuel =
    let t : ltb i s.internal_nfds ≡ true = ground arith in
    let z : (suc count == 0) ≡ false = ground arith in
    let k : suc count - 1 ≡ count = omega arith in
    elim (Bool-cases ((s.internal_fds i).events == 0 || (s.internal_fds i).revents == 0)) [
      | inl skip ↦
          rw (t, z, skip)
            (dispatch_log rounds (i + 1) n (suc count) s log (omega arith) (omega arith))
      | inr call ↦
          rw (t, z, call, k)
            (dispatch_log rounds (i + 1) n count s _ (omega arith) (omega arith)
              ∙ rw append_assoc refl)
    ]

module _ {W : Type 0} (on_event : ℕ → ℕ → ℕ → ℕ → EventLoop × W → EventLoop × W) where
  -- As many rounds as the table has room for are enough: any two such numbers of rounds give one
  -- result, if the callbacks keep the table within its array.
  pub dispatch_fuel :
      ((c fd revents x : ℕ) (s : EventLoop × W)
        → s.0.internal_nfds ≤ max_poll_fd
        → (on_event c fd revents x s).0.internal_nfds ≤ max_poll_fd)
      → (m n i count : ℕ) (s : EventLoop × W) → s.0.internal_nfds ≤ max_poll_fd
      → max_poll_fd ≤ i + m
      → max_poll_fd ≤ i + n
      → dispatch on_event m i count s ≡ dispatch on_event n i count s
  unfolding dispatch
  dispatch_fuel keeps zero zero i count s fits em en = refl
  dispatch_fuel keeps zero (suc n) i count s fits em en =
      let t : ltb i s.0.internal_nfds ≡ false = ground arith in rw t refl
  dispatch_fuel keeps (suc m) zero i count s fits em en =
      let t : ltb i s.0.internal_nfds ≡ false = ground arith in rw t refl
  dispatch_fuel keeps (suc m) (suc n) i count s fits em en =
      let p : PollFd = s.0.internal_fds i in
      let c : EventCallback = s.0.internal_callback i in
      rw (dispatch_fuel keeps m n (i + 1) count s fits (omega arith) (omega arith)) (
        rw
          (dispatch_fuel keeps m n (i + 1) (count - 1)
            (on_event c.on_event p.fd p.revents c.event_data s)
            (keeps c.on_event p.fd p.revents c.event_data s fits) (omega arith) (omega arith))
          refl)

-- A step calls, in the order of the table, the first `count` entries that are live and have an
-- event, each with its descriptor, events and data, if the callbacks leave the table alone.
pub event_loop_step_helper_log :
    (count : ℕ) (s : EventLoop) (log : List Call)
    → s.internal_nfds ≤ max_poll_fd
    → (event_loop_step_helper note count (s, log)).1 ≡ log ++ take count (due s 0 s.internal_nfds)
unfolding event_loop_step_helper
event_loop_step_helper_log count s log fits =
    ap (λ (r : EventLoop × List Call). r.1)
      (dispatch_log max_poll_fd 0 s.internal_nfds count s log (omega arith) fits)
