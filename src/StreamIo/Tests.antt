-- ===== src/StreamIo/Tests.antt =====
-- A chain of three streams.
use nginz.Prelude.{ℕ, ◌+◌, ◌≡◌, refl, ◌≢◌, none, some, List, [], ◌∷◌, arith, ◌==◌, if◌then◌else◌}
use nginz.EventLoop
use nginz.EventLoop.{EventLoop}
use nginz.StreamIo.{Streams, SendResult, default_streamio_close}
use nginz.StreamIo.Top.{IsTop, default_streamio_close_lem}

-- The stream 1 below 2 below 3, which has the descriptor 9.
abbrev three : Streams
three = record {
  streams = λ i. record {
    fd = if i == 3 then some 9 else none;
    bubble_up = if i == 3 then none else some (i + 1);
    bubble_down = none;
    error = 0;
  };
  loop = record {
    internal_fds = λ i. record { fd = 9; events = 1; revents = 0 };
    internal_callback = λ i. record { on_event = 1; event_data = 3 };
    internal_nfds = 1;
  };
  closed = [];
}

three-IsTop : IsTop three 1 2 3
unfolding IsTop
three-IsTop = (2, refl, (3, refl, (refl, refl)))

abbrev write : ℕ → ℕ → List (ℕ × ℕ) → SendResult × List (ℕ × ℕ)
write fd msg w = (SendResult.sent 1, (fd, msg) ∷ w)

default_streamio_close_example :
    (t : Streams) × (default_streamio_close 3 1 three ≡ some t)
    × (t.streams 3 ≡ record (three.streams 3) { fd = none })
    × (t.loop ≡ EventLoop.event_loop_unregister_fd 9 three.loop)
    × (t.closed ≡ 9 ∷ [])
    × ((j : ℕ) → j ≢ 3 → t.streams j ≡ three.streams j)
default_streamio_close_example =
    default_streamio_close_lem three 1 2 3 9 three-IsTop refl 3 (omega arith)
