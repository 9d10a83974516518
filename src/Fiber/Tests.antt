-- ===== src/Fiber/Tests.antt =====
-- The table of fibers on small examples.
use nginz.Prelude.{ℕ, ◌+◌, ◌<◌, ◌≡◌, refl, ◌≢◌, false, none, some, arith, update, find_first}
use nginz.Prelude.{find_from}
use nginz.Fiber.{
  max_fibers, FiberStatus, InternalFiber, Fibers, fill_slot, Ret, Run, fiber_module_init,
  register_fiber_full, step_slot, fiber_module_step,
}
use nginz.Fiber.Invariant.{IsValid, IsValid-init, register_fiber_full-IsValid, IsQuiet}
use nginz.Fiber.Rounds.{next_status, IsUnique, step_slot_lem}
use nginz.Fiber.Total.{is_created, fiber_module_step_total}

abbrev slot : ℕ → InternalFiber
slot f = record { status = FiberStatus.created; fiber = some f; filename = 1; lineno = 2 }

-- One fiber, in the first slot.
abbrev one_fiber : Fibers
one_fiber = record {
  fibers =
      update (λ i. record { status = FiberStatus.empty; fiber = none; filename = 0; lineno = 0 }) 0
        (slot 7);
  internal_quit = false;
}

abbrev full_table : Fibers
full_table = record { fibers = slot; internal_quit = false }

-- A fiber that counts its calls.
abbrev ticking : Run ℕ
ticking f s t w = (Ret.other, t, w + 1)

ticking-IsQuiet : IsQuiet ticking
ticking-IsQuiet f s t w = refl

registered : register_fiber_full fiber_module_init 7 1 2 ≡ some one_fiber
unfolding register_fiber_full fill_slot fiber_module_init find_first find_from
registered = refl

refused : register_fiber_full full_table 99 0 0 ≡ none
unfolding register_fiber_full fill_slot find_first find_from
refused = refl

one_fiber-IsValid : IsValid one_fiber
one_fiber-IsValid = register_fiber_full-IsValid fiber_module_init 7 1 2 IsValid-init registered

one_fiber-IsUnique : IsUnique one_fiber
one_fiber-IsUnique i j f hi hj e e' = ground arith

step_slot_example :
    (t' : Fibers) × (w' : ℕ) × (step_slot ticking 0 one_fiber 0 ≡ some (t', w'))
    × ((t'.fibers 0).status ≡ next_status FiberStatus.created Ret.other)
    × ((k : ℕ) → k ≢ 0 → (t'.fibers k).status ≡ (one_fiber.fibers k).status)
step_slot_example =
    step_slot_lem ticking ticking-IsQuiet one_fiber 0 7 0 one_fiber-IsUnique (omega arith) refl refl

fiber_module_step_example :
    (t' : Fibers) × (w' : ℕ) × (fiber_module_step ticking one_fiber 0 ≡ some (t', w'))
    × IsValid t'
    × ((k : ℕ) → k < max_fibers → is_created (t'.fibers k).status ≡ false)
fiber_module_step_example =
    fiber_module_step_total ticking ticking-IsQuiet one_fiber 0 one_fiber-IsValid
