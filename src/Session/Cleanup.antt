-- ===== src/Session/Cleanup.antt =====
-- What the fiber of the zombies puts off.
use nginz.Prelude.{
  ℕ, zero, suc, ◌+◌, ◌≤◌, ◌<◌, ◌≡◌, refl, ap, ◌∙◌, inl, inr, true, false, some, List, [], ◌∷◌,
  arith, ◌==◌, ==_refl, ==_of_ne, ltb-true, ltb-false, Bool-cases, length, get_or, Array, update,
}
use nginz.LazyCall.{lazy_object_queue_size, Lazy, lazy_cleanup}
use nginz.Session.Zombie.{
  Zombies, is_passed_over, is_recent, cleanup_all, chat_lazy_cleanup_fiber, cleaned, IsQueued,
}

abbrev queued : ℕ → Lazy → Lazy
queued c s = record s {
  lazy_cleanup_objects = update s.lazy_cleanup_objects s.lazy_cleanup_count c;
  lazy_cleanup_count = s.lazy_cleanup_count + 1;
}

queue_one :
    (c : ℕ) (s : Lazy)
    → s.lazy_cleanup_count < lazy_object_queue_size
    → lazy_cleanup (some c) s ≡ some (queued c s)
unfolding lazy_cleanup
queue_one c s h = rw (ltb-true s.lazy_cleanup_count lazy_object_queue_size h) refl

IsQueued-cons : (c : ℕ) (l : List ℕ) (s t : Lazy) → IsQueued l (queued c s) t → IsQueued (c ∷ l) s t
IsQueued-cons c l s t (count, before, new) =
    let n = s.lazy_cleanup_count in
    (
      omega (arith, count),
      λ i h. before i (omega arith) ∙ rw (==_of_ne n i (omega arith)) refl,
      λ i h. cell i h,
    )
  where
    cell :
        (i : ℕ)
        → i < suc (length l)
        → t.lazy_cleanup_objects (s.lazy_cleanup_count + i) ≡ get_or (c ∷ l) i 0
    cell zero h =
        let e : s.lazy_cleanup_count + 0 ≡ s.lazy_cleanup_count = omega arith in
        ap t.lazy_cleanup_objects e
        ∙ before s.lazy_cleanup_count (omega arith)
        ∙ rw (==_refl s.lazy_cleanup_count) refl
    cell (suc i) h =
        let e : s.lazy_cleanup_count + suc i ≡ s.lazy_cleanup_count + 1 + i = omega arith in
        ap t.lazy_cleanup_objects e ∙ new i (omega arith)

passed_recent :
    (now quited_at : ℕ) → is_recent now quited_at ≡ true → is_passed_over now quited_at ≡ false
passed_recent now quited_at e = ground arith

passed_over :
    (now quited_at : ℕ) → is_recent now quited_at ≡ false → is_passed_over now quited_at ≡ true
passed_over now quited_at e = ground arith

cleanup_all-IsQueued :
    (now : ℕ) (quited_at : Array ℕ) (l : List ℕ) (s : Lazy)
    → s.lazy_cleanup_count + length (cleaned now quited_at l) ≤ lazy_object_queue_size
    → (t : Lazy) × (cleanup_all now quited_at l s ≡ some t) × IsQueued (cleaned now quited_at l) s t
unfolding cleanup_all cleaned
cleanup_all-IsQueued now quited_at [] s room =
    (s, refl, (omega arith, λ i h. refl, λ i h. absurd (omega arith)))
cleanup_all-IsQueued now quited_at (c ∷ l) s room =
    elim (Bool-cases (is_recent now (quited_at c))) [
      | inr skip ↦
          rw (skip, passed_over now (quited_at c) skip)
            (cleanup_all-IsQueued now quited_at l s (rw skip at room))
      | inl clean ↦
          let room' : s.lazy_cleanup_count + suc (length (cleaned now quited_at l))
              ≤ lazy_object_queue_size =
            rw clean at room in
          let (t, done, all) =
            cleanup_all-IsQueued now quited_at l (queued c s) (omega (arith, room')) in
          rw (clean, passed_recent now (quited_at c) clean)
            (
              t,
              rw (queue_one c s (omega (arith, room'))) done,
              IsQueued-cons c (cleaned now quited_at l) s t all,
            )
    ]

fiber_cleans :
    (now : ℕ) (quited_at : Array ℕ) (l : List ℕ) (g : ℕ) (s : Lazy)
    → s.lazy_cleanup_count + length (cleaned now quited_at l) ≤ lazy_object_queue_size
    → 10 ≤ g
    → (t : Lazy) × (chat_lazy_cleanup_fiber now quited_at (record { zombie_list = l; gear = g }, s)
        ≡ some (record { zombie_list = l; gear = 0 }, t))
      × IsQueued (cleaned now quited_at l) s t
unfolding chat_lazy_cleanup_fiber cleaned
fiber_cleans now quited_at [] g s room h =
    (s, rw (ltb-false g 10 h) refl, (omega arith, λ i k. refl, λ i k. absurd (omega arith)))
fiber_cleans now quited_at (c ∷ l) g s room h =
    let (t, done, all) = cleanup_all-IsQueued now quited_at (c ∷ l) s room in
    let filled : (suc (length l) == 0) ≡ false = ground arith in
    (t, rw (ltb-false g 10 h, filled, done) refl, all)

-- The eleventh call puts off the release of exactly the zombies that quit no more than two minutes
-- ago, in the order of the list, behind what was put off before; the ten calls before it do
-- nothing. The queue has room for them.
pub chat_lazy_cleanup_fiber_lem :
    (now : ℕ) (quited_at : Array ℕ) (z : Zombies) (s : Lazy)
    → s.lazy_cleanup_count + length (cleaned now quited_at z.zombie_list) ≤ lazy_object_queue_size
    → (z.gear < 10
        → chat_lazy_cleanup_fiber now quited_at (z, s) ≡ some (record z { gear = z.gear + 1 }, s))
      × (10 ≤ z.gear
          → (t : Lazy) × (chat_lazy_cleanup_fiber now quited_at (z, s)
              ≡ some (record z { gear = 0 }, t))
            × IsQueued (cleaned now quited_at z.zombie_list) s t)
unfolding chat_lazy_cleanup_fiber
chat_lazy_cleanup_fiber_lem now quited_at z s room = (
  λ h. rw (ltb-true z.gear 10 h) refl,
  λ h. fiber_cleans now quited_at z.zombie_list z.gear s room h,
)
