-- ===== src/TcpListener/Tests.antt =====
-- The listeners of two protocols.
use nginz.Prelude.{ℕ, ◌+◌, Bool, true, Option, none, some, [], ltb, ◌==◌, if◌then◌else◌}
use nginz.EventLoop.{EventLoop}
use nginz.Protostack.{Protostack}
use nginz.TcpListener.{TcpListener}

-- The world is the next free descriptor.
abbrev next_socket : ℕ → Option ℕ × ℕ
next_socket w = (some w, w + 1)

abbrev bind_any : ℕ → ℕ → ℕ → Bool × ℕ
bind_any fd port w = (true, w)

abbrev listen_any : ℕ → ℕ → Bool × ℕ
listen_any fd w = (true, w)

-- The chat and the web server.
abbrev two_ports : ℕ → ℕ
two_ports i = if i == 0 then 9399 else if i == 1 then 80 else 0

abbrev two_stacks : Protostack
two_stacks = record {
  internal_port_for_stacks = two_ports;
  internal_stacks = λ i. if ltb i 2 then some (i + 1) else none;
}

-- The table watches the descriptor 5 already.
abbrev watching : EventLoop
watching = record {
  internal_fds = λ i. record { fd = 5; events = 1; revents = 0 };
  internal_callback = λ i. record { on_event = 1; event_data = 0 };
  internal_nfds = 1;
}

abbrev idle : TcpListener
idle = record { tcp_ports = two_ports; tcp_sockets = λ i. none; loop = watching; closed = [] }
