-- ===== src/Fiber/Total.antt =====
-- A round over a valid table comes to its end, whatever the fibers answer.
use nginz.Prelude.{
  ℕ, zero, suc, ◌+◌, ◌<◌, ◌≡◌, refl, ap, ◌∙◌, inl, inr, Bool, true, false, Option, none, some,
  arith, Bool-cases, find_first,
}
use nginz.Fiber.{
  max_fibers, FiberStatus, InternalFiber, Fibers, is_empty, is_idle, Ret, Run, unregister_fiber,
  clear_slot, set_status, activate, on_ret, step_slot, step_loop, fiber_module_step, minus_one,
  minus_two, other, is_fiber,
}
use nginz.Fiber.Invariant.{IsValid, IsQuiet, unregister_fiber-IsValid, quiet_IsValid}
use nginz.Fiber.Rounds.{not_null}
use native.Mathlib.Decide.{dec_lt}
use mathlib.Core.Path.{subst}

abbrev pub is_created : FiberStatus → Bool
is_created FiberStatus.created = true
is_created _ = false

abbrev NoNewCreated : Fibers → Fibers → Type 0
NoNewCreated t t' =
    (k : ℕ) → is_created (t.fibers k).status ≡ false → is_created (t'.fibers k).status ≡ false

activate-IsValid :
    (i : ℕ) (s : FiberStatus) (t : Fibers)
    → (t.fibers i).status ≡ s
    → IsValid t
    → IsValid (activate i s t)
unfolding activate set_status
activate-IsValid i FiberStatus.created t e v = record {
  at_slot = λ k h. ground (arith, v.at_slot k h);
}
activate-IsValid i _ t e v = v

activate_settles :
    (i : ℕ) (s : FiberStatus) (t : Fibers)
    → (t.fibers i).status ≡ s
    → (is_created ((activate i s t).fibers i).status ≡ false) × NoNewCreated t (activate i s t)
unfolding activate set_status
activate_settles i FiberStatus.created t e = (ground arith, λ k c. ground arith)
activate_settles i _ t e = (rw e refl, λ k c. c)

idle_not_created : (s : FiberStatus) → is_idle s ≡ true → is_created s ≡ false
idle_not_created s h = ground arith

busy_not_empty : (s : FiberStatus) → is_idle s ≡ false → is_empty s ≡ false
busy_not_empty s h = ground arith

module _ {W : Type 0} (run : Run W) (quiet : IsQuiet run) where
  clear_slot_settled :
      (o : Option ℕ) (f : ℕ) (t : Fibers) (w : W) → NoNewCreated t (clear_slot run o f t w).1
  unfolding clear_slot
  clear_slot_settled none f t w k c = c
  clear_slot_settled (some j) f t w k c =
      ground
        (arith, ap (λ (a : ℕ → InternalFiber). (a k).status) (quiet f FiberStatus.destroyed t w))

  on_ret_total :
      (r : Ret) (t : Fibers) (i f : ℕ) (w : W)
      → IsValid t
      → i < max_fibers
      → (t.fibers i).fiber ≡ some f
      → (t' : Fibers) × (w' : W) × (on_ret run r i t w ≡ some (t', w'))
        × IsValid t'
        × NoNewCreated t t'
  unfolding on_ret
  on_ret_total minus_one t i f w v h e = (
    (unregister_fiber run f t w).1,
    (unregister_fiber run f t w).2,
    rw e refl,
    unregister_fiber-IsValid run quiet f t w v,
    unfold unregister_fiber in
        clear_slot_settled (find_first (λ j. is_fiber f (t.fibers j).fiber) max_fibers) f t w,
  )
  on_ret_total minus_two t i f w v h e = (
    set_status i FiberStatus.deactivated t,
    w,
    refl,
    record { at_slot = λ k hk. unfold set_status in ground (arith, v.at_slot k hk) },
    λ k c. unfold set_status in ground arith,
  )
  on_ret_total other t i f w v h e = (t, w, refl, v, λ k c. c)

  step_slot_busy :
      (t : Fibers) (i f : ℕ) (w : W)
      → IsValid t
      → i < max_fibers
      → is_idle (t.fibers i).status ≡ false
      → (t.fibers i).fiber ≡ some f
      → (t' : Fibers) × (w' : W) × (step_slot run i t w ≡ some (t', w'))
        × IsValid t'
        × (is_created (t'.fibers i).status ≡ false)
        × NoNewCreated t t'
  unfolding step_slot
  step_slot_busy t i f w v h busy e =
      let s : FiberStatus = (t.fibers i).status in
      let q : (run f s t w).1.fibers ≡ t.fibers = quiet f s t w in
      let (t1, w1, done, valid, keeps) =
        on_ret_total (run f s t w).0 (run f s t w).1 i f (run f s t w).2
          (quiet_IsValid run quiet f s t w v) h
          (ap (λ (a : ℕ → InternalFiber). (a i).fiber) q ∙ e) in
      let (settled, keeps') = activate_settles i (t1.fibers i).status t1 refl in
      (
        activate i (t1.fibers i).status t1,
        w1,
        rw (busy, e, done) refl,
        activate-IsValid i (t1.fibers i).status t1 refl valid,
        settled,
        λ k c. keeps' k (keeps k (ap (λ (a : ℕ → InternalFiber). is_created (a k).status) q ∙ c)),
      )

  step_slot_total :
      (t : Fibers) (i : ℕ) (w : W)
      → IsValid t
      → i < max_fibers
      → (t' : Fibers) × (w' : W) × (step_slot run i t w ≡ some (t', w'))
        × IsValid t'
        × (is_created (t'.fibers i).status ≡ false)
        × NoNewCreated t t'
  step_slot_total t i w v h = elim (Bool-cases (is_idle (t.fibers i).status)) [
    | inl idle ↦ (t, w, unfold step_slot in rw idle refl, v, idle_not_created _ idle, λ k c. c)
    | inr busy ↦
        let (f, e) = not_null (t.fibers i).fiber (v.at_slot i h ∙ busy_not_empty _ busy) in
        step_slot_busy t i f w v h busy e
  ]

  step_loop_total :
      (n i : ℕ) (t : Fibers) (w : W)
      → i + n ≡ max_fibers
      → IsValid t
      → ((k : ℕ) → k < i → is_created (t.fibers k).status ≡ false)
      → (t' : Fibers) × (w' : W) × (step_loop run n i t w ≡ some (t', w'))
        × IsValid t'
        × ((k : ℕ) → k < max_fibers → is_created (t'.fibers k).status ≡ false)
  unfolding step_loop
  step_loop_total zero i t w e v seen = (t, w, refl, v, λ k h. seen k (omega arith))
  step_loop_total (suc n) i t w e v seen =
      let (t1, w1, done, valid, settled, keeps) = step_slot_total t i w v (omega arith) in
      let (t2, w2, done', valid', seen') =
        step_loop_total n (i + 1) t1 w1 (omega arith) valid (λ k h. elim (dec_lt k i) [
          | yes p ↦ keeps k (seen k p)
          | no p ↦ subst (λ (x : ℕ). is_created (t1.fibers x).status ≡ false) (omega arith) settled
        ]) in
      (t2, w2, rw done done', valid', seen')

  -- A round over a valid table calls no NULL function and comes to its end, with a valid table in
  -- which no slot is CREATED, if the fibers do not change the table themselves.
  pub fiber_module_step_total :
      (t : Fibers) (w : W)
      → IsValid t
      → (t' : Fibers) × (w' : W) × (fiber_module_step run t w ≡ some (t', w'))
        × IsValid t'
        × ((k : ℕ) → k < max_fibers → is_created (t'.fibers k).status ≡ false)
  unfolding fiber_module_step
  fiber_module_step_total t w v =
      step_loop_total max_fibers 0 t w refl v (λ k h. absurd (omega arith))
