-- ===== src/EventLoop/Table.antt =====
-- What the table of descriptors holds: its live entries, and how registering and unregistering
-- change them.
use nginz.Prelude.{
  ltb-true, ℕ, zero, suc, ◌+◌, ◌≤◌, ◌<◌, ◌≡◌, refl, sym, ap, ◌∙◌, ◌≢◌, ◌⊎◌, inl, inr, Bool, true,
  false, ◌&&◌, some, arith, ◌==◌, if◌then◌else◌, ==_refl, ==_of_ne, Bool-cases, Option-cases,
  update, find_first, find_first-some, find_first-none,
}
use native.Mathlib.Decide.{ℕ_discrete}
use mathlib.Core.Path.{subst}
use native.Mathlib.Numerals.{add-one}
use nginz.EventLoop.{
  max_poll_fd, PollFd, EventCallback, EventLoop, is_live, event_loop_register_fd, clear_events,
  event_loop_unregister_fd,
}

-- A test of a registration: of an entry and its callback.
abbrev pub Test : Type 0
Test = PollFd → EventCallback → Bool

-- 1 for a live entry that passes the test.
abbrev pub weight : Test → EventLoop → ℕ → ℕ
weight p s i =
    if is_live (s.internal_fds i) && p (s.internal_fds i) (s.internal_callback i) then 1 else 0

-- How many of the first `n` entries are live and pass the test.
unfoldable pub count_live : Test → EventLoop → ℕ → ℕ
count_live p s zero = 0
count_live p s (suc n) = count_live p s n + weight p s n

abbrev pub live : Test → EventLoop → ℕ
live p s = count_live p s s.internal_nfds

pub count_live-congr :
    (p : Test) (s t : EventLoop) (n : ℕ)
    → ((i : ℕ) → i < n → weight p s i ≡ weight p t i)
    → count_live p s n ≡ count_live p t n
unfolding count_live
count_live-congr p s t zero h = refl
count_live-congr p s t (suc n) h =
    omega (arith, h n, count_live-congr p s t n (λ i l. h i (omega arith)))

-- Where two tables differ in one entry only, so do the counts.
pub count_live-at :
    (p : Test) (s t : EventLoop) (n k : ℕ)
    → k < n
    → ((i : ℕ) → i ≢ k → weight p s i ≡ weight p t i)
    → count_live p s n + weight p t k ≡ count_live p t n + weight p s k
unfolding count_live
count_live-at p s t zero k h same = absurd (omega arith)
count_live-at p s t (suc n) k h same = elim (ℕ_discrete n k) [
  | yes e ↦
      let below : count_live p s n ≡ count_live p t n =
        count_live-congr p s t n (λ i l. same i (omega arith)) in
      let at_n : (weight p s n ≡ weight p s k) = ap (weight p s) e in
      let at_n' : (weight p t n ≡ weight p t k) = ap (weight p t) e in omega arith
  | no ne ↦ omega (arith, same n ne, count_live-at p s t n k (omega arith) same)
]

abbrev registered : ℕ → ℕ → ℕ → ℕ → EventLoop → EventLoop
registered fd on_event event_data events s = record s {
  internal_fds =
      update s.internal_fds s.internal_nfds (record { fd = fd; events = events; revents = 0 });
  internal_callback =
      update s.internal_callback s.internal_nfds
        (record { on_event = on_event; event_data = event_data });
  internal_nfds = s.internal_nfds + 1;
}

register_eq :
    (fd c x events : ℕ) (s t : EventLoop)
    → event_loop_register_fd fd c x events s ≡ some t
    → (s.internal_nfds < max_poll_fd) × (registered fd c x events s ≡ t)
unfolding event_loop_register_fd
register_eq fd c x events s t e = ground arith

-- A table with room takes a registration.
pub register_room :
    (fd c x events : ℕ) (s : EventLoop)
    → s.internal_nfds < max_poll_fd
    → (t : EventLoop) × (event_loop_register_fd fd c x events s ≡ some t)
      × (t.internal_nfds ≡ s.internal_nfds + 1)
unfolding event_loop_register_fd
register_room fd c x events s h =
    (registered fd c x events s, rw (ltb-true s.internal_nfds max_poll_fd h) refl, refl)

registered-live :
    (fd c x events : ℕ) (s : EventLoop) (p : Test) (n : ℕ)
    → n ≡ s.internal_nfds
    → 0 < events
    → count_live p (registered fd c x events s) (suc n)
      ≡ live p s
        + (if p
              (record { fd = fd; events = events; revents = 0 })
              (record { on_event = c; event_data = x })
            then 1
            else 0)
unfolding count_live
registered-live fd c x events s p n e pos =
    let t = registered fd c x events s in
    let before : count_live p t s.internal_nfds ≡ count_live p s s.internal_nfds =
      count_live-congr p t s s.internal_nfds
        (λ i h. rw (==_of_ne s.internal_nfds i (omega arith)) refl) in
    rw (e, before, ==_refl s.internal_nfds, ==_of_ne events 0 (omega arith)) refl

-- A registration with events adds one live entry, that of the arguments, and changes no other.
pub event_loop_register_fd-live :
    (fd on_event event_data events : ℕ) (s t : EventLoop) (p : Test)
    → event_loop_register_fd fd on_event event_data events s ≡ some t
    → 0 < events
    → (t.internal_nfds ≤ max_poll_fd)
      × (live p t
          ≡ live p s
            + (if p
                  (record { fd = fd; events = events; revents = 0 })
                  (record { on_event = on_event; event_data = event_data })
                then 1
                else 0))
event_loop_register_fd-live fd c x events s t p e pos =
    let (fits, same) = register_eq fd c x events s t e in
    subst
      (λ (u : EventLoop).
        (u.internal_nfds ≤ max_poll_fd)
        × (live p u
            ≡ live p s
              + (if p (record { fd = fd; events = events; revents = 0 })
                    (record { on_event = c; event_data = x })
                  then 1
                  else 0)))
      same
      (
        omega arith,
        ap (λ (n : ℕ). count_live p (registered fd c x events s) n) (add-one s.internal_nfds)
            ∙ registered-live fd c x events s p s.internal_nfds refl pos,
      )

weight-clear_events :
    (p : Test) (s : EventLoop) (k i : ℕ)
    → weight p (clear_events s (some k)) i ≡ (if k == i then 0 else weight p s i)
unfolding clear_events
weight-clear_events p s k i = elim (Bool-cases (k == i)) [ inl e ↦ rw e refl | inr ne ↦ rw ne refl ]

clear_events-live :
    (p : Test) (s : EventLoop) (k : ℕ)
    → k < s.internal_nfds
    → count_live p (clear_events s (some k)) s.internal_nfds + weight p s k ≡ live p s
clear_events-live p s k h =
    let t = clear_events s (some k) in
    let gone : weight p t k ≡ 0 = weight-clear_events p s k k ∙ rw (==_refl k) refl in
    let rest : ((i : ℕ) → i ≢ k → weight p t i ≡ weight p s i) =
      λ i ne. weight-clear_events p s k i ∙ rw (==_of_ne k i (λ e. ne (sym e))) refl in
    omega (arith, count_live-at p t s s.internal_nfds k h rest)

-- Unregistering a descriptor takes its first live entry out of the live ones and nothing else, or
-- changes nothing where no live entry has the descriptor.
pub event_loop_unregister_fd-live :
    (fd : ℕ) (s : EventLoop)
    → ((k : ℕ) × (k < s.internal_nfds)
        × ((s.internal_fds k).fd ≡ fd)
        × (is_live (s.internal_fds k) ≡ true)
        × ((p : Test) → live p (event_loop_unregister_fd fd s) + weight p s k ≡ live p s))
      ⊎ ((event_loop_unregister_fd fd s ≡ s)
          × ((k : ℕ)
              → k < s.internal_nfds
              → ((s.internal_fds k).fd == fd && is_live (s.internal_fds k)) ≡ false))
event_loop_unregister_fd-live fd s =
    let test : ℕ → Bool = λ i. (s.internal_fds i).fd == fd && is_live (s.internal_fds i) in
    elim (Option-cases (find_first test s.internal_nfds)) [
      | inl e ↦ inr (
        unfold event_loop_unregister_fd clear_events in rw e refl,
        λ k h. find_first-none test s.internal_nfds k e h,
      )
      | inr (k, e) ↦
          let (passes, h) = find_first-some test s.internal_nfds k e in
          inl (
            k,
            h,
            ground arith,
            ground arith,
            λ p. unfold event_loop_unregister_fd in rw e (clear_events-live p s k h),
          )
    ]
