-- ===== src/Fiber/Invariant.antt =====
-- A slot of the fiber table has a function exactly while it is in use.
use nginz.Prelude.{
  ℕ, ◌<◌, ◌≡◌, ◌≢◌, refl, Bool, true, false, Option, none, some, arith, find_first, find_first-some,
  find_first_before, find_first-none,
}
use nginz.Fiber.{
  max_fibers, FiberStatus, Fibers, is_empty, fill_slot, register_fiber_full, fiber_module_init, Run,
  unregister_fiber, clear_slot,
}

abbrev pub is_null : Option ℕ → Bool
is_null none = true
is_null (some f) = false

pub record IsValid (t : Fibers) : Type 0 where
  pub at_slot : (i : ℕ) → i < max_fibers → is_null (t.fibers i).fiber ≡ is_empty (t.fibers i).status

pub IsValid-init : IsValid fiber_module_init
unfolding fiber_module_init
IsValid-init = record { at_slot = λ i h. refl }

fill_slot-IsValid :
    (t : Fibers) (f n l : ℕ) (o : Option ℕ) {t' : Fibers}
    → IsValid t
    → fill_slot t f n l o ≡ some t'
    → IsValid t'
unfolding fill_slot
fill_slot-IsValid t f n l none v e = cc
fill_slot-IsValid t f n l (some j) v e = record { at_slot = λ i h. ground (arith, v.at_slot i h) }

-- Registering a fiber keeps the table valid.
pub register_fiber_full-IsValid :
    (t : Fibers) (f n l : ℕ) {t' : Fibers}
    → IsValid t
    → register_fiber_full t f n l ≡ some t'
    → IsValid t'
unfolding register_fiber_full
register_fiber_full-IsValid t f n l v e = fill_slot-IsValid t f n l _ v e

fill_slot-fills :
    (t : Fibers) (f n l : ℕ) (o : Option ℕ) (t' : Fibers)
    → fill_slot t f n l o ≡ some t'
    → (i : ℕ) × (o ≡ some i)
      × (t'.fibers i
          ≡ record { status = FiberStatus.created; fiber = some f; filename = n; lineno = l })
      × ((k : ℕ) → k ≢ i → t'.fibers k ≡ t.fibers k)
unfolding fill_slot
fill_slot-fills t f n l none t' e = cc
fill_slot-fills t f n l (some j) t' e = (j, refl, ground arith, λ k h. ground arith)

-- A registered fiber is in the first slot that was empty, in the state CREATED, and no other
-- slot has changed.
pub register_fiber_full_lem :
    (t : Fibers) (f n l : ℕ) (t' : Fibers)
    → register_fiber_full t f n l ≡ some t'
    → (i : ℕ) × (i < max_fibers)
      × (is_empty (t.fibers i).status ≡ true)
      × ((k : ℕ) → k < i → is_empty (t.fibers k).status ≡ false)
      × (t'.fibers i
          ≡ record { status = FiberStatus.created; fiber = some f; filename = n; lineno = l })
      × ((k : ℕ) → k ≢ i → t'.fibers k ≡ t.fibers k)
unfolding register_fiber_full
register_fiber_full_lem t f n l t' e =
    let test : ℕ → Bool = λ i. is_empty (t.fibers i).status in
    let (i, found, here, rest) = fill_slot-fills t f n l (find_first test max_fibers) t' e in
    let s : (test i ≡ true) × (i < max_fibers) = find_first-some test max_fibers i found in
    (i, s.1, s.0, λ k h. find_first_before test max_fibers i k found h, here, rest)

fill_slot-none : (t : Fibers) (f n l : ℕ) (o : Option ℕ) → fill_slot t f n l o ≡ none → o ≡ none
unfolding fill_slot
fill_slot-none t f n l none e = refl
fill_slot-none t f n l (some j) e = cc

-- A registration stops the process exactly if all sixteen slots are in use.
pub register_fiber_full-full :
    (t : Fibers) (f n l : ℕ)
    → register_fiber_full t f n l ≡ none
    → (i : ℕ) → i < max_fibers
    → is_empty (t.fibers i).status ≡ false
unfolding register_fiber_full
register_fiber_full-full t f n l e i h =
    find_first-none (λ j. is_empty (t.fibers j).status) max_fibers i (fill_slot-none t f n l _ e) h

-- What holds of fibers that do not register or unregister fibers themselves.
abbrev pub IsQuiet : {W : Type 0} → Run W → Type 0
IsQuiet {W} run = (f : ℕ) (s : FiberStatus) (t : Fibers) (w : W) → (run f s t w).1.fibers ≡ t.fibers

module _ {W : Type 0} (run : Run W) (quiet : IsQuiet run) where
  pub quiet_IsValid :
      (f : ℕ) (s : FiberStatus) (t : Fibers) (w : W) → IsValid t → IsValid (run f s t w).1
  quiet_IsValid f s t w v = record { at_slot = λ i h. rw (quiet f s t w) (v.at_slot i h) }

  clear_slot-IsValid :
      (o : Option ℕ) (f : ℕ) (t : Fibers) (w : W) → IsValid t → IsValid (clear_slot run o f t w).1
  unfolding clear_slot
  clear_slot-IsValid none f t w v = v
  clear_slot-IsValid (some j) f t w v = record {
    at_slot = λ i h. ground (arith, (quiet_IsValid f FiberStatus.destroyed t w v).at_slot i h);
  }

  -- Unregistering keeps the table valid.
  pub unregister_fiber-IsValid :
      (f : ℕ) (t : Fibers) (w : W) → IsValid t → IsValid (unregister_fiber run f t w).1
  unfolding unregister_fiber
  unregister_fiber-IsValid f t w v = clear_slot-IsValid _ f t w v
