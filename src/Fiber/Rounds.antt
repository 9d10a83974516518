-- ===== src/Fiber/Rounds.antt =====
-- What one round over the fibers does, for fibers that do not change the table themselves.
use nginz.Prelude.{
  ℕ, ◌<◌, ◌≡◌, refl, sym, ap, ◌∙◌, ◌≢◌, inl, inr, true, false, Option, none, some, arith, ◌==◌,
  if◌then◌else◌, ==_refl, eq_of_==, Bool-cases, find_first, find_first_at,
}
use nginz.Fiber.{
  InternalFiber, max_fibers, FiberStatus, Fibers, is_idle, is_fiber, Ret, Run, unregister_fiber,
  clear_slot, set_status, activate, on_ret, step_slot, minus_one, minus_two, other,
}
use nginz.Fiber.Invariant.{is_null, IsQuiet}

-- The state that a slot goes to when its fiber answers.
unfoldable pub next_status : FiberStatus → Ret → FiberStatus
next_status s minus_one = FiberStatus.empty
next_status s minus_two = FiberStatus.deactivated
next_status FiberStatus.created other = FiberStatus.activated
next_status s other = s

-- No two slots hold the same function.
abbrev pub IsUnique : Fibers → Type 0
IsUnique t =
    (i j : ℕ) (f : ℕ)
    → i < max_fibers
    → j < max_fibers
    → (t.fibers i).fiber ≡ some f
    → (t.fibers j).fiber ≡ some f
    → i ≡ j

is_fiber-some : (f : ℕ) (o : Option ℕ) → is_fiber f o ≡ true → o ≡ some f
is_fiber-some f none h = cc
is_fiber-some f (some g) h = ap (λ (n : ℕ). some n) (sym (eq_of_== f g h))

pub not_null : (o : Option ℕ) → is_null o ≡ false → (f : ℕ) × (o ≡ some f)
not_null none h = cc
not_null (some f) h = (f, refl)

-- The slot's status once the answer is acted on.
abbrev after_ret : Ret → FiberStatus → FiberStatus
after_ret minus_one s = FiberStatus.empty
after_ret minus_two s = FiberStatus.deactivated
after_ret other s = s

-- The state after the CREATED test.
abbrev settle : FiberStatus → FiberStatus
settle FiberStatus.created = FiberStatus.activated
settle s = s

module _ {W : Type 0} (run : Run W) (quiet : IsQuiet run) where
  -- Where the function stands once, the slot that the search finds is that one.
  found_at :
      (t : Fibers) (i f : ℕ)
      → IsUnique t
      → i < max_fibers
      → (t.fibers i).fiber ≡ some f
      → find_first (λ j. is_fiber f (t.fibers j).fiber) max_fibers ≡ some i
  found_at t i f u h e =
      find_first_at (λ j. is_fiber f (t.fibers j).fiber) max_fibers i h (rw e (==_refl f))
        (λ k before. elim (Bool-cases (is_fiber f (t.fibers k).fiber)) [
          | inl same ↦ absurd (omega (arith, u k i f (omega arith) h (is_fiber-some f _ same) e))
          | inr differs ↦ differs
        ])

  clear_slot_quiet :
      (t : Fibers) (i f : ℕ) (w : W) (k : ℕ)
      → ((clear_slot run (some i) f t w).1.fibers k).status
        ≡ (if i == k then FiberStatus.empty else (t.fibers k).status)
  unfolding clear_slot
  clear_slot_quiet t i f w k = ground (arith, ap (λ a. a k) (quiet f FiberStatus.destroyed t w))

  on_ret_lem :
      (r : Ret) (t : Fibers) (i f : ℕ) (w : W)
      → IsUnique t
      → i < max_fibers
      → (t.fibers i).fiber ≡ some f
      → (t' : Fibers) × (w' : W) × (on_ret run r i t w ≡ some (t', w'))
        × ((t'.fibers i).status ≡ after_ret r (t.fibers i).status)
        × ((k : ℕ) → k ≢ i → (t'.fibers k).status ≡ (t.fibers k).status)
  unfolding on_ret unregister_fiber set_status
  on_ret_lem minus_one t i f w u h e = (
    (clear_slot run (some i) f t w).1,
    (clear_slot run (some i) f t w).2,
    rw (e, found_at t i f u h e) refl,
    ground (arith, clear_slot_quiet t i f w i),
    λ k ne. ground (arith, clear_slot_quiet t i f w k),
  )
  on_ret_lem minus_two t i f w u h e = (_, _, refl, ground arith, λ k ne. ground arith)
  on_ret_lem other t i f w u h e = (_, _, refl, refl, λ k ne. refl)

  activate_lem :
      (i : ℕ) (s : FiberStatus) (t : Fibers)
      → (t.fibers i).status ≡ s
      → ((activate i s t).fibers i).status
        ≡ (elim s [ FiberStatus.created ↦ FiberStatus.activated | other_status ↦ other_status ])
  unfolding activate set_status
  activate_lem i FiberStatus.created t e = ground arith
  activate_lem i _ t e = e

  activate_other :
      (i : ℕ) (s : FiberStatus) (t : Fibers) (k : ℕ)
      → k ≢ i
      → ((activate i s t).fibers k).status ≡ (t.fibers k).status
  unfolding activate set_status
  activate_other i FiberStatus.created t k ne = ground arith
  activate_other i _ t k ne = refl

  next_status_lem :
      (s : FiberStatus) (r : Ret)
      → is_idle s ≡ false
      → (elim (after_ret r s) [
        | FiberStatus.created ↦ FiberStatus.activated
        | other_status ↦ other_status
      ])
        ≡ next_status s r
  unfolding next_status
  next_status_lem FiberStatus.created minus_one h = refl
  next_status_lem FiberStatus.created minus_two h = refl
  next_status_lem FiberStatus.created other h = refl
  next_status_lem FiberStatus.activated minus_one h = refl
  next_status_lem FiberStatus.activated minus_two h = refl
  next_status_lem FiberStatus.activated other h = refl
  next_status_lem FiberStatus.empty r h = cc
  next_status_lem FiberStatus.deactivated r h = cc
  next_status_lem FiberStatus.destroyed r h = cc

  -- A slot in use has its function called with its status, and goes to the state that the answer
  -- says; no other slot's status changes.
  pub step_slot_lem :
      (t : Fibers) (i f : ℕ) (w : W)
      → IsUnique t
      → i < max_fibers
      → is_idle (t.fibers i).status ≡ false
      → (t.fibers i).fiber ≡ some f
      → (t' : Fibers) × (w' : W) × (step_slot run i t w ≡ some (t', w'))
        × ((t'.fibers i).status ≡ next_status (t.fibers i).status (run f (t.fibers i).status t w).0)
        × ((k : ℕ) → k ≢ i → (t'.fibers k).status ≡ (t.fibers k).status)
  unfolding step_slot
  step_slot_lem t i f w u h busy e =
      let s : FiberStatus = (t.fibers i).status in
      let r : Ret = (run f s t w).0 in
      let q : (run f s t w).1.fibers ≡ t.fibers = quiet f s t w in
      let (t1, w1, done, at_i, rest) =
        on_ret_lem r (run f s t w).1 i f (run f s t w).2 (rw q u) h (rw q e) in
      let now : (t1.fibers i).status ≡ after_ret r s =
        at_i ∙ ap (λ (a : ℕ → InternalFiber). after_ret r (a i).status) q in
      (
        activate i (t1.fibers i).status t1,
        w1,
        rw (busy, e, done) refl,
        activate_lem i (t1.fibers i).status t1 refl
            ∙ ap (λ (x : FiberStatus). settle x) now
            ∙ next_status_lem s r busy,
        λ k ne.
            activate_other i (t1.fibers i).status t1 k ne ∙ rest k ne ∙ ap (λ a. (a k).status) q,
      )
