-- ===== src/LazyCall.antt =====
-- base/src/lazy_call.c: calls and clean-ups that are put off until the fiber of this file runs.
-- A function and an object are named by numbers; what a call and an `OPPUNREF` do is a parameter.
mod Order
mod Tests
use nginz.Prelude.{ℕ, zero, suc, ◌+◌, Option, none, some, ltb, assert, ◌>>=◌, ◌>>◌, Array, update}
use nginz.Fiber
use nginz.Fiber.{Fibers}

abbrev pub lazy_stack_size : ℕ
lazy_stack_size = 24

abbrev pub lazy_object_queue_size : ℕ
lazy_object_queue_size = 1024

-- The static variables of the file. `go_lazy` and `data` are the two arrays of the stack.
pub record Lazy : Type 0 where
  pub lazy_stack_count : ℕ
  pub lazy_stack : Array ℕ
  pub lazy_stack_data : Array ℕ
  pub lazy_cleanup_count : ℕ
  pub lazy_cleanup_objects : Array ℕ

-- `none` as argument is NULL. The process stops if the stack is full.
pub lazy_call : Option ℕ → ℕ → Lazy → Option Lazy
lazy_call none x s = none
lazy_call (some f) x s = do
  assert (ltb s.lazy_stack_count lazy_stack_size)
  some (record s {
    lazy_stack = update s.lazy_stack s.lazy_stack_count f;
    lazy_stack_data = update s.lazy_stack_data s.lazy_stack_count x;
    lazy_stack_count = s.lazy_stack_count + 1;
  })

-- The second test of the code, which returns -1, comes after an assertion of its contrary.
unfoldable pub lazy_cleanup : Option ℕ → Lazy → Option Lazy
lazy_cleanup none s = none
lazy_cleanup (some o) s = do
  assert (ltb s.lazy_cleanup_count lazy_object_queue_size)
  some (record s {
    lazy_cleanup_objects = update s.lazy_cleanup_objects s.lazy_cleanup_count o;
    lazy_cleanup_count = s.lazy_cleanup_count + 1;
  })

module _ {W : Type 0} (call : ℕ → ℕ → Lazy × W → Lazy × W) (unref : ℕ → Lazy × W → Lazy × W) where
  -- `while(i--) lazy_stack[i](lazy_stack_data[i]);` reads the arrays as the calls leave them.
  run_stack : ℕ → Lazy × W → Lazy × W
  run_stack zero s = s
  run_stack (suc i) s = run_stack i (call (s.0.lazy_stack i) (s.0.lazy_stack_data i) s)

  run_cleanup : ℕ → Lazy × W → Lazy × W
  run_cleanup zero s = s
  run_cleanup (suc i) s = run_cleanup i (unref (s.0.lazy_cleanup_objects i) s)

  after_stack : Lazy × W → Lazy × W
  unfolding run_stack
  after_stack (s, w) =
      let (s', w') = run_stack s.lazy_stack_count (s, w) in (record s' { lazy_stack_count = 0 }, w')

  pub lazy_call_step : Lazy × W → Lazy × W
  unfolding after_stack run_cleanup
  lazy_call_step s =
      let s1 = after_stack s in
      let s2 = run_cleanup s1.0.lazy_cleanup_count s1 in
      (record s2.0 { lazy_cleanup_count = 0 }, s2.1)

-- The fiber of this file is registered by the number `lazy_call_step`.
pub lazy_call_module_init : ℕ → ℕ → ℕ → Fibers → Option Fibers
lazy_call_module_init step filename lineno t = Fiber.register_fiber_full t step filename lineno

-- The code registers the fiber once more where it means to take it out.
pub lazy_call_module_deinit : ℕ → ℕ → ℕ → Fibers → Option Fibers
lazy_call_module_deinit step filename lineno t = Fiber.register_fiber_full t step filename lineno
