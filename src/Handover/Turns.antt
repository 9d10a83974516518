-- ===== src/Handover/Turns.antt =====
-- The way of a connection from the master to the worker whose turn it is.
use nginz.Prelude.{
  ℕ, suc, ◌+◌, ◌%◌, ◌≤◌, ◌<◌, ◌≡◌, refl, sym, ap, ◌∙◌, true, Option, some, List, [], ◌∷◌, arith,
  ◌>>=◌, length,
}
use nginz.Xtring.{Xtring}
use nginz.BinaryCoder
use nginz.BinaryCoder.Layout.{IsFramed, encode_all}
use nginz.BinaryCoder.Framed.{pid_fields, binary_coder_reset_for_pid-IsFramed}
use nginz.Pipeline.{Pipeline}
use nginz.Pipeline.Lookup.{IsStar, IsFull, pp_get_raw_fd_lem}
use nginz.Protostack
use nginz.Protostack.{Protostack}
use nginz.LoadBalancer
use nginz.LoadBalancer.{LoadBalancer, load_balancer_setup}
use nginz.LoadBalancer.RoundRobin.{next_times, turn, turn_next, load_balancer_next_turns}
use nginz.Handover.{
  Kernel, receive_room, send_through, pp_raw_send_socket, pp_raw_sendmsg_helper, send_connection,
  pp_recvmsg_helper, on_raw_recv_socket,
}
use nginz.Handover.Arrival.{queue-pp_raw_sendmsg_helper, on_raw_recv_socket-framed}

-- The raw pipe of a worker: its two ends are a pair, the kernel takes what is written, and nothing
-- waits in it.
pub record IsReady (K : Kernel) (s : Pipeline) (i fd : ℕ) (w : K.World) : Type 0 where
  pub paired : K.peer (s.nodes i).raw_fd0 ≡ (s.nodes i).raw_fd1
  pub taken : (l : List ℕ) → (K.sendmsg (s.nodes i).raw_fd0 fd l w).0 ≡ true
  pub alone : K.queue (s.nodes i).raw_fd1 w ≡ []

module _ (X : Xtring) (K : Kernel) where
  open X use {Txt, bytes, capacity, of_bytes}
  open K use {World, queue, installed}

  -- The master's side, after `k` connections.
  send_connection_lem :
      (e : ℕ → ℕ) (s : Pipeline) (k port fd : ℕ) (welcome : List ℕ) (bin : Txt) (w : World)
      → IsStar e
      → IsFull e s
      → IsReady K s (turn (suc k)) fd w
      → 256 ≤ capacity bin
      → length welcome + 19 ≤ receive_room
      → (w' : World) × (m : Txt) × ((do
        lb ← next_times s k (load_balancer_setup (e 0))
        send_connection X K port welcome bin fd s (lb, w))
          ≡ some (record { nid = e (turn (suc k)) }, w'))
        × (queue (s.nodes (turn (suc k))).raw_fd1 w' ≡ (fd, bytes m) ∷ [])
        × IsFramed X m (encode_all X (pid_fields X 0 port (of_bytes welcome)))
  unfolding send_connection pp_raw_send_socket send_through next_times
  send_connection_lem e s k port fd welcome bin w star full ready big short =
      let i = turn (suc k) in
      let text : length (bytes (of_bytes welcome)) ≡ length welcome = rw X.bytes-of_bytes refl in
      let (start, begun, framed) =
        binary_coder_reset_for_pid-IsFramed X bin (of_bytes welcome) 0 port big (omega arith)
          (rw text (omega arith)) (rw text (omega arith)) in
      let m =
        (BinaryCoder.binary_pack_string X (BinaryCoder.binary_pack_int X start port).1
          (of_bytes welcome)).1 in
      let now = load_balancer_next_turns e s star full k in
      let next : LoadBalancer.load_balancer_next s (record { nid = e (turn k) })
          ≡ some (record { nid = e i }) =
        sym (ap (λ o. o >>= λ lb. LoadBalancer.load_balancer_next s lb) now)
        ∙ load_balancer_next_turns e s star full (suc k) in
      let raw = pp_get_raw_fd_lem e i s star full (turn_next (suc k)).0 in
      let waits =
        queue-pp_raw_sendmsg_helper X K (s.nodes i).raw_fd0 fd m w (ready.taken (bytes m))
          (rw ready.paired ready.alone) in
      (
        (pp_raw_sendmsg_helper X K (s.nodes i).raw_fd0 fd m w).1,
        m,
        rw (now, begun, next, raw) refl,
        rw⁻¹ ready.paired waits,
        framed,
      )

  -- The connection after `k` others, of a protocol with a short welcome, in a star of distinct
  -- processes, whose kernel takes what is written: the master hands it to the worker
  -- 1 + k % 5. When that worker reads its raw pipe, in which nothing else has waited, the handler
  -- of the protocol that is registered for the port is called with the descriptor that the kernel
  -- installs there, and with a message whose third field is the welcome.
  pub on_raw_recv_socket-send_connection :
      {S : Type 0} (bubble : ℕ → Option ℕ → Txt → S × World → Option (S × World)) (e : ℕ → ℕ)
      (s : Pipeline) (stacks : Protostack) (k port stack fd : ℕ) (welcome : List ℕ) (bin : Txt)
      (u : S) (w : World)
      → IsStar e
      → IsFull e s
      → IsReady K s (1 + k % 5) fd w
      → 256 ≤ capacity bin
      → port < 0x8000_0000
      → length welcome + 19 ≤ receive_room
      → Protostack.protostack_get port stacks ≡ some stack
      → (w' w'' : World) × (cmd x : Txt) × ((do
        lb ← next_times s k (load_balancer_setup (e 0))
        send_connection X K port welcome bin fd s (lb, w))
          ≡ some (record { nid = e (1 + k % 5) }, w'))
        × (on_raw_recv_socket X K bubble (s.nodes (1 + k % 5)).raw_fd1 stacks (u, w')
            ≡ bubble stack (some (installed (s.nodes (1 + k % 5)).raw_fd1 w')) cmd (u, w''))
        × (BinaryCoder.binary_unpack_string X cmd 2 ≡ some (true, x))
        × (bytes x ≡ welcome)
  on_raw_recv_socket-send_connection bubble e s stacks k port stack fd welcome bin u w star full
        ready big small short known =
      let q = (s.nodes (1 + k % 5)).raw_fd1 in
      let (w', m, sent, waits, framed) =
        send_connection_lem e s k port fd welcome bin w star full ready big short in
      let (cmd, x, run, unpacked, same) =
        on_raw_recv_socket-framed X K bubble q fd port stack m (of_bytes welcome) stacks u w' waits
          small (rw X.bytes-of_bytes short) framed known in
      (
        w',
        (pp_recvmsg_helper X K q w').1,
        cmd,
        x,
        sent,
        run,
        unpacked,
        same ∙ X.bytes-of_bytes welcome,
      )
