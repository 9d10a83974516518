-- ===== src/Handover.antt =====
-- net/src/raw_pipeline.c, and the connection handlers of the chat and the web server in the master
-- (apps/chat/src/chat_accept.c, apps/http/src/http_accept.c): an accepted socket goes to a worker
-- over the raw pipe, with a message in front.
pub mod Arrival
pub mod Turns
mod Tests
use nginz.Prelude.{
  ℕ, ◌≤◌, ◌≡◌, Bool, true, false, Option, none, some, List, [], ◌∷◌, ◌++◌, if◌then◌else◌, ◌>>=◌,
  ◌>>◌, length,
}
use nginz.Xtring.{Xtring}
use nginz.BinaryCoder
use nginz.EventLoop
use nginz.EventLoop.{EventLoop}
use nginz.Pipeline
use nginz.Pipeline.{Pipeline}
use nginz.Protostack
use nginz.Protostack.{Protostack}
use nginz.LoadBalancer
use nginz.LoadBalancer.{LoadBalancer}
use nginz.Http.Accept.{http_welcome}

-- The socket pairs of the kernel (SOCK_DGRAM), with descriptors as ancillary data. `queue` holds
-- the datagrams that wait at a socket: the descriptor that is sent with the bytes, and the bytes.
-- `recvmsg` gives the descriptor that came, and the buffer, as long as the room it is called with;
-- `none` is -1. `installed` is the number under which the receiver has the descriptor.
pub record Kernel : Type 1 where
  pub World : Type 0
  pub peer : ℕ → ℕ
  pub queue : ℕ → World → List (ℕ × List ℕ)
  pub installed : ℕ → World → ℕ
  pub sendmsg : ℕ → ℕ → List ℕ → World → Bool × World
  pub recvmsg : ℕ → ℕ → World → Option (Option ℕ × List ℕ) × World
  pub close : ℕ → World → World
  pub queue-sendmsg :
      (through target : ℕ) (l : List ℕ) (w : World)
      → (sendmsg through target l w).0 ≡ true
      → queue (peer through) (sendmsg through target l w).1
        ≡ queue (peer through) w ++ (target, l) ∷ []
  -- a descriptor that is on its way stays open
  pub queue-close : (q target : ℕ) (w : World) → queue q (close target w) ≡ queue q w
  pub recvmsg_lem :
      (q room target : ℕ) (l : List ℕ) (rest : List (ℕ × List ℕ)) (w : World)
      → queue q w ≡ (target, l) ∷ rest
      → length l ≤ room
      → (junk : List ℕ) × (length (l ++ junk) ≡ room)
        × ((recvmsg q room w).0 ≡ some (some (installed q w), l ++ junk))

abbrev pub chat_port : ℕ
chat_port = 9399

abbrev pub http_port : ℕ
http_port = 80

-- "chat/_welcome"
abbrev pub chat_welcome : List ℕ
chat_welcome = 99 ∷ 104 ∷ 97 ∷ 116 ∷ 47 ∷ 95 ∷ 119 ∷ 101 ∷ 108 ∷ 99 ∷ 111 ∷ 109 ∷ 101 ∷ []

-- The buffer that `pp_recvmsg_helper` gives a text that has none.
abbrev pub receive_room : ℕ
receive_room = 128

module _ (X : Xtring) (K : Kernel) where
  open X use {Txt, bytes, set_length, of_bytes}
  open K use {World, sendmsg, recvmsg, close}

  -- The socket is closed here once it is sent, and stays open when it is not.
  unfoldable pub pp_raw_sendmsg_helper : ℕ → ℕ → Txt → World → Bool × World
  pp_raw_sendmsg_helper through target cmd w =
      let sent = sendmsg through target (bytes cmd) w in
      if sent.0 then (true, close target sent.1) else (false, sent.1)

  unfoldable pub send_through : ℕ → Txt → World → Option ℕ → Bool × World
  send_through socket cmd w none = (false, w)
  send_through socket cmd w (some fd) = pp_raw_sendmsg_helper fd socket cmd w

  -- `true` is the result 0, `false` is -1.
  unfoldable pub pp_raw_send_socket : ℕ → ℕ → Txt → Pipeline → World → Bool × World
  pp_raw_send_socket destpid socket cmd s w =
      send_through socket cmd w (Pipeline.pp_get_raw_fd destpid s)

  -- What the handlers of both protocols do; `bin` is the buffer on the stack. The result 0 does
  -- not tell whether the socket is sent.
  unfoldable pub send_connection :
      ℕ → List ℕ → Txt → ℕ → Pipeline → LoadBalancer × World → Option (LoadBalancer × World)
  send_connection port welcome bin fd s (lb, w) = do
    start ← BinaryCoder.binary_coder_reset_for_pid X bin 0
    let cmd =
        (BinaryCoder.binary_pack_string X (BinaryCoder.binary_pack_int X start port).1
          (of_bytes welcome)).1
    lb' ← LoadBalancer.load_balancer_next s lb
    some (lb', (pp_raw_send_socket lb'.nid fd cmd s w).1)

  unfoldable pub on_tcp_connection :
      Txt → ℕ → Pipeline → LoadBalancer × World → Option (LoadBalancer × World)
  on_tcp_connection = send_connection chat_port chat_welcome

  unfoldable pub http_on_tcp_connection :
      Txt → ℕ → Pipeline → LoadBalancer × World → Option (LoadBalancer × World)
  http_on_tcp_connection = send_connection http_port http_welcome

  -- The length of the text is the room of the buffer, whatever has come.
  received_text : Option (Option ℕ × List ℕ) → Option (Option ℕ × Txt)
  received_text none = none
  received_text (some (target, buffer)) = some (target, set_length receive_room (of_bytes buffer))

  unfoldable pub pp_recvmsg_helper : ℕ → World → Option (Option ℕ × Txt) × World
  unfolding received_text
  pp_recvmsg_helper through w =
      let received = recvmsg through receive_room w in (received_text received.0, received.1)

  -- The handlers of the protocols, by the number of the protocol. The descriptor is `none` when
  -- none has come, where the code passes -1.
  module _ {S : Type 0}
      (on_connection_bubble : ℕ → Option ℕ → Txt → S × World → Option (S × World)) where
    unfoldable pub dispatch : Protostack → Option (Option ℕ × Txt) → S × World → Option (S × World)
    dispatch stacks none state = some state
    dispatch stacks (some (target, cmd)) state = do
      fixed ← BinaryCoder.binary_coder_fixup X cmd
      srcpid ← BinaryCoder.binary_unpack_int X fixed 0 0
      port ← BinaryCoder.binary_unpack_int X fixed 1 0
      stack ← Protostack.protostack_get port.1 stacks
      on_connection_bubble stack target fixed state

    unfoldable pub on_raw_recv_socket : ℕ → Protostack → S × World → Option (S × World)
    on_raw_recv_socket fd stacks (s, w) =
        let received = pp_recvmsg_helper fd w in dispatch stacks received.0 (s, received.1)

-- What the fork hooks of a child call with its end of the raw pipe.
pub on_raw_socket_setup : ℕ → ℕ → ℕ → EventLoop → Option EventLoop
on_raw_socket_setup on_raw_recv flags raw_fd loop =
    EventLoop.event_loop_register_fd raw_fd on_raw_recv 0 flags loop
