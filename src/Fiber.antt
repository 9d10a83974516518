-- ===== src/Fiber.antt =====
-- base/src/fiber.c: the table of fibers and the round robin that steps them. A fiber is a
-- function pointer, named by a number; what the functions do is a parameter of the step.
mod Invariant
mod Rounds
mod Total
mod Tests
use nginz.Prelude.{
  ℕ, zero, suc, ◌+◌, ◌-◌, ◌≡◌, Bool, true, false, not, ◌&&◌, ◌||◌, Option, none, some, ◌==◌,
  if◌then◌else◌, Array, update, find_first, assert, ◌>>=◌, ◌>>◌,
}

abbrev pub max_fibers : ℕ
max_fibers = 16

pub data FiberStatus : Type 0 where
  empty created activated deactivated destroyed : FiberStatus

pub record InternalFiber : Type 0 where
  pub status : FiberStatus
  -- `none` is NULL
  pub fiber : Option ℕ
  pub filename : ℕ
  pub lineno : ℕ

-- The static variables of the file.
pub record Fibers : Type 0 where
  pub fibers : Array InternalFiber
  pub internal_quit : Bool

-- What a fiber's `int` says to the step: -1, -2, or anything else.
pub data Ret : Type 0 where
  minus_one minus_two other : Ret

abbrev is_empty : FiberStatus → Bool
is_empty FiberStatus.empty = true
is_empty _ = false

-- EMPTY, DEACTIVATED and DESTROYED slots are passed over.
abbrev is_idle : FiberStatus → Bool
is_idle FiberStatus.created = false
is_idle FiberStatus.activated = false
is_idle _ = true

abbrev is_fiber : ℕ → Option ℕ → Bool
is_fiber f none = false
is_fiber f (some g) = f == g

-- memset of the table; `internal_quit` is a static variable that starts at 0.
pub fiber_module_init : Fibers
fiber_module_init = record {
  fibers = λ i. record { status = FiberStatus.empty; fiber = none; filename = 0; lineno = 0 };
  internal_quit = false;
}

fill_slot : Fibers → ℕ → ℕ → ℕ → Option ℕ → Option Fibers
fill_slot t fiber filename lineno none = none
fill_slot t fiber filename lineno (some i) = some (record t {
  fibers = update t.fibers i (record {
    status = FiberStatus.created;
    fiber = some fiber;
    filename = filename;
    lineno = lineno;
  });
})

-- `none`: the table is full, and `aroop_assert` stops the process.
pub register_fiber_full : Fibers → ℕ → ℕ → ℕ → Option Fibers
unfolding fill_slot
register_fiber_full t fiber filename lineno =
    fill_slot t fiber filename lineno (find_first (λ i. is_empty (t.fibers i).status) max_fibers)

unfoldable pub fiber_quit : Fibers → Fibers
fiber_quit t = record t { internal_quit = true }

-- The number that the `fiber` command prints.
pub count_activated : Array InternalFiber → ℕ → ℕ
count_activated a zero = 0
count_activated a (suc n) =
    count_activated a n + (elim ((a n).status) [ FiberStatus.activated ↦ 1 | _ ↦ 0 ])

-- What the function behind a fiber does with the table and with the rest of the process.
abbrev pub Run : Type 0 → Type 0
Run W = ℕ → FiberStatus → Fibers → W → Ret × Fibers × W

set_status : ℕ → FiberStatus → Fibers → Fibers
set_status i s t = record t { fibers = update t.fibers i (record (t.fibers i) { status = s }) }

-- `if(fibers[i].status == FIBER_STATUS_CREATED) fibers[i].status = FIBER_STATUS_ACTIVATED;`
activate : ℕ → FiberStatus → Fibers → Fibers
unfolding set_status
activate i FiberStatus.created t = set_status i FiberStatus.activated t
activate i _ t = t

module _ {W : Type 0} (run : Run W) where
  clear_slot : Option ℕ → ℕ → Fibers → W → Bool × Fibers × W
  clear_slot none fiber t w = (false, t, w)
  clear_slot (some i) fiber t w =
      let (r, t', w') = run fiber FiberStatus.destroyed t w in
      (
        true,
        record t' {
          fibers =
              update t'.fibers i
                (record (t'.fibers i) { status = FiberStatus.empty; fiber = none });
        },
        w',
      )

  -- The `Bool` is the result, `true` for 0 and `false` for -1.
  pub unregister_fiber : ℕ → Fibers → W → Bool × Fibers × W
  unfolding clear_slot
  unregister_fiber fiber t w =
      clear_slot (find_first (λ i. is_fiber fiber (t.fibers i).fiber) max_fibers) fiber t w

  -- The slot's pointer is read again, since the fiber may have changed the table.
  on_ret : Ret → ℕ → Fibers → W → Option (Fibers × W)
  unfolding unregister_fiber set_status
  on_ret minus_one i t w = do
    f ← (t.fibers i).fiber
    some ((unregister_fiber f t w).1, (unregister_fiber f t w).2)
  on_ret minus_two i t w = some (set_status i FiberStatus.deactivated t, w)
  on_ret other i t w = some (t, w)

  pub step_slot : ℕ → Fibers → W → Option (Fibers × W)
  unfolding on_ret activate
  step_slot i t w = if is_idle (t.fibers i).status then some (t, w) else do
    f ← (t.fibers i).fiber
    (t', w') ←
        on_ret (run f (t.fibers i).status t w).0 i (run f (t.fibers i).status t w).1
          (run f (t.fibers i).status t w).2
    some (activate i (t'.fibers i).status t', w')

  step_loop : ℕ → ℕ → Fibers → W → Option (Fibers × W)
  step_loop zero i t w = some (t, w)
  step_loop (suc n) i t w = do (t', w') ← step_slot i t w; step_loop n (i + 1) t' w'

  pub fiber_module_step : Fibers → W → Option (Fibers × W)
  fiber_module_step t w = step_loop max_fibers 0 t w

  -- `while(!internal_quit)`; with no fuel left the state is that of the rounds made so far.
  pub fiber_module_run : ℕ → Fibers → W → Option (Fibers × W)
  fiber_module_run zero t w = some (t, w)
  fiber_module_run (suc fuel) t w =
      let go : Option (Fibers × W) = (do
        (t', w') ← fiber_module_step t w
        fiber_module_run fuel t' w') in
      if t.internal_quit then some (t, w) else go
