-- ===== src/EventLoop/Tests.antt =====
-- The table of descriptors on small examples.
use nginz.Prelude.{ℕ, ◌+◌, ◌≤◌, ◌<◌, ◌≡◌, true, [], ◌++◌, arith, take, update}
use nginz.EventLoop.{
  EventCallback, EventLoop, is_live, event_loop_batch_unregister, event_loop_step_helper,
}
use nginz.EventLoop.Table.{Test, live}
use nginz.EventLoop.Compact.{event_loop_batch_unregister_lem}
use nginz.EventLoop.Dispatch.{note, due, event_loop_step_helper_log}

abbrev callback : ℕ → EventCallback
callback i = record { on_event = 50 + i; event_data = 60 + i }

-- Three entries, the second of which is unregistered; the third has an event.
abbrev three : EventLoop
three = record {
  internal_fds =
      update
        (update (λ i. record { fd = 7 + i; events = 1; revents = 0 }) 1
          (record { fd = 8; events = 0; revents = 0 }))
        2 (record { fd = 9; events = 1; revents = 1 });
  internal_callback = callback;
  internal_nfds = 3;
}

event_loop_batch_unregister_example :
    ((p : Test) → live p (event_loop_batch_unregister three) ≡ live p three)
    × ((j : ℕ)
        → j < (event_loop_batch_unregister three).internal_nfds
        → is_live ((event_loop_batch_unregister three).internal_fds j) ≡ true)
    × ((event_loop_batch_unregister three).internal_nfds ≤ 3)
event_loop_batch_unregister_example = event_loop_batch_unregister_lem three

event_loop_step_helper_example :
    (event_loop_step_helper note 1 (three, [])).1 ≡ [] ++ take 1 (due three 0 3)
event_loop_step_helper_example = event_loop_step_helper_log 1 three [] (omega arith)
