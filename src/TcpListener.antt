-- ===== src/TcpListener.antt =====
-- net/src/tcp_listener.c: the listening sockets of the master, one for each port of a protocol.
pub mod Balance
pub mod Start
mod Tests
use nginz.Prelude.{
  ℕ, zero, suc, ◌+◌, Bool, true, false, not, Option, none, some, List, ◌∷◌, ◌==◌, if◌then◌else◌,
  assert, ◌>>=◌, ◌>>◌, Array, update,
}
use nginz.EventLoop
use nginz.EventLoop.{EventLoop}
use nginz.Protostack
use nginz.Protostack.{Protostack, max_proto}

-- `none` in `tcp_sockets` is -1. `closed` are the descriptors that are closed, the last one first.
pub record TcpListener : Type 0 where
  pub tcp_ports : Array ℕ
  pub tcp_sockets : Array (Option ℕ)
  pub loop : EventLoop
  pub closed : List ℕ

abbrev pub set_socket : ℕ → Option ℕ → TcpListener → TcpListener
set_socket i x s = record s { tcp_sockets = update s.tcp_sockets i x }

-- `event_loop_unregister_fd`, and `close` unless the descriptor is 0
abbrev pub stop_one : ℕ → ℕ → TcpListener → TcpListener
stop_one i fd s = set_socket i none (record s {
  loop = EventLoop.event_loop_unregister_fd fd s.loop;
  closed = if fd == 0 then s.closed else fd ∷ s.closed;
})

abbrev pub when_open : TcpListener → (ℕ → TcpListener) → Option ℕ → TcpListener
when_open s stop none = s
when_open s stop (some fd) = stop fd

-- The loop over the sockets ends at the first -1.
unfoldable pub stop_loop : ℕ → ℕ → TcpListener → TcpListener
stop_loop zero i s = s
stop_loop (suc n) i s = when_open s (λ fd. stop_loop n (i + 1) (stop_one i fd s)) (s.tcp_sockets i)

unfoldable pub tcp_listener_stop : TcpListener → TcpListener
tcp_listener_stop s = stop_loop max_proto 0 s

-- `socket`, `bind` to a port and `listen` are calls of the kernel; `on_connection` is the number
-- of the handler, and `flags` is NGINZ_POLL_LISTEN_FLAGS.
module _ {W : Type 0} (socket : W → Option ℕ × W) (bind : ℕ → ℕ → W → Bool × W)
    (listen : ℕ → W → Bool × W) (on_connection flags : ℕ) (stacks : Protostack) where
  abbrev pub close_socket : ℕ → TcpListener → TcpListener
  close_socket fd s = record s { closed = fd ∷ s.closed }

  unfoldable pub start_listening : ℕ → ℕ → TcpListener × W → Option (TcpListener × W)
  start_listening port fd (s, w) =
      let bound = bind fd port w in
      let listening = listen fd bound.1 in
      let begin : Option (TcpListener × W) = (do
        stack ← Protostack.protostack_get port stacks
        loop ← EventLoop.event_loop_register_fd fd on_connection stack flags s.loop
        some (record s { loop = loop }, listening.1)) in
      if not bound.0
      then some (close_socket fd s, bound.1)
      else if not listening.0
      then some (close_socket fd s, listening.1)
      else begin

  unfoldable pub open_socket : ℕ → ℕ → TcpListener → Option ℕ × W → Option (TcpListener × W)
  open_socket port i s (none, w) = some (s, w)
  open_socket port i s (some fd, w) = start_listening port fd (set_socket i (some fd) s, w)

  unfoldable pub start_loop : ℕ → ℕ → TcpListener × W → Option (TcpListener × W)
  start_loop zero i s = some s
  start_loop (suc n) i (s, w) =
      let rest : Option (TcpListener × W) = (do
        assert (Protostack.is_null (s.tcp_sockets i))
        t ← open_socket (s.tcp_ports i) i s (socket w)
        start_loop n (i + 1) t) in
      if s.tcp_ports i == 0 then some (s, w) else rest

  unfoldable pub tcp_listener_start : TcpListener × W → Option (TcpListener × W)
  tcp_listener_start (s, w) = do assert (not (s.tcp_ports 0 == 0)); start_loop max_proto 0 (s, w)

  -- What is done in the master alone.
  unfoldable pub tcp_listener_init : Bool → TcpListener × W → Option (TcpListener × W)
  tcp_listener_init is_master (s, w) =
      let ports = Protostack.protostack_get_ports_internal stacks (λ i. 0) in
      let start = tcp_listener_start (record s { tcp_ports = ports }, w) in
      if is_master then start else some (s, w)

-- A connection that comes; `on_tcp_connection` are the handlers of the protocols. A failure of
-- `accept` ends the listening. The `Bool` is `true` for 0.
module _ {W : Type 0} (accept : ℕ → W → Option ℕ × W)
    (on_tcp_connection : ℕ → ℕ → TcpListener × W → TcpListener × W) where
  accepted : ℕ → Option ℕ → TcpListener → Option ℕ × W → Option (Bool × (TcpListener × W))
  accepted fd stack s (none, w) = some (
    false,
    (record s { loop = EventLoop.event_loop_unregister_fd fd s.loop; closed = fd ∷ s.closed }, w),
  )
  accepted fd stack s (some client, w) = do
    known ← stack
    some (true, on_tcp_connection known client (s, w))

  pub on_connection : ℕ → Option ℕ → TcpListener × W → Option (Bool × (TcpListener × W))
  unfolding accepted
  on_connection fd stack (s, w) = accepted fd stack s (accept fd w)
