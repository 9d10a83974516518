-- ===== src/TcpListener/Start.antt =====
-- Starting the listeners, and stopping them after that.
use nginz.Prelude.{ℕ, ◌+◌, ◌≤◌, ◌<◌, ◌≡◌, ◌≢◌, Bool, true, ◌&&◌, Option, none, some, ◌==◌}
use nginz.EventLoop.{max_poll_fd}
use nginz.EventLoop.Table.{Test, live}
use nginz.Protostack
use nginz.Protostack.{Protostack, is_null}
use nginz.TcpListener.{TcpListener}
use nginz.TcpListener.Balance.{live_of, count_sockets}

-- A kernel that gives a socket, a port and a queue whenever it is asked.
pub record IsGranting {W : Type 0} (socket : W → Option ℕ × W) (bind : ℕ → ℕ → W → Bool × W)
    (listen : ℕ → W → Bool × W) : Type 0 where
  pub number : W → ℕ
  pub opened : W → W
  pub socket_lem : (w : W) → socket w ≡ (some (number w), opened w)
  pub bind_lem : (fd port : ℕ) (w : W) → (bind fd port w).0 ≡ true
  pub listen_lem : (fd : ℕ) (w : W) → (listen fd w).0 ≡ true

-- From the socket `i` on none is open, and every port has a protocol.
pub record IsIdle (stacks : Protostack) (i n : ℕ) (s : TcpListener) : Type 0 where
  pub unopened : (j : ℕ) → i ≤ j → s.tcp_sockets j ≡ none
  pub known :
      (j : ℕ)
      → i ≤ j
      → j < i + n
      → s.tcp_ports j ≢ 0
      → (stack : ℕ) × (Protostack.protostack_get (s.tcp_ports j) stacks ≡ some stack)
  pub room : s.loop.internal_nfds + n ≤ max_poll_fd

-- The entry of a listening socket.
abbrev pub listens : ℕ → ℕ → ℕ → Test
listens on_connection fd stack f c =
    f.fd == fd && (c.on_event == on_connection && c.event_data == stack)

-- The socket of the port `j` is open, and the table has a live entry for it, which calls
-- `on_connection` with the protocol of the port.
abbrev pub IsListening : ℕ → Protostack → ℕ → TcpListener → Type 0
IsListening on_connection stacks j t =
    (fd stack : ℕ) × (t.tcp_sockets j ≡ some fd)
    × (Protostack.protostack_get (t.tcp_ports j) stacks ≡ some stack)
    × (1 ≤ live (listens on_connection fd stack) t.loop)

module _ {W : Type 0} (socket : W → Option ℕ × W) (bind : ℕ → ℕ → W → Bool × W)
    (listen : ℕ → W → Bool × W) (on_connection flags : ℕ) (stacks : Protostack)
    (grant : IsGranting socket bind listen) (pos : 0 < flags) where
  -- The sockets up to `i` are those of before, and those behind it are what the table has more.
  -- Up to the first port that is 0 the ports are listened to, and no live entry has gone.
  abbrev Started : ℕ → ℕ → TcpListener → TcpListener → Type 0
  Started n i s t =
      ((j : ℕ) → j < i → t.tcp_sockets j ≡ s.tcp_sockets j)
      × ((q : ℕ) → live_of q t.loop ≡ live_of q s.loop + count_sockets q n i t.tcp_sockets)
      × (t.tcp_ports ≡ s.tcp_ports)
      × ((p : Test) → live p s.loop ≤ live p t.loop)
      × ((j : ℕ)
          → i ≤ j
          → j < i + n
          → ((k : ℕ) → i ≤ k → k ≤ j → s.tcp_ports k ≢ 0)
          → IsListening on_connection stacks j t)
