-- ===== src/Bubbles.antt =====
-- base/src/parallel/pipeline.c: what a process writes to the pipe of another is the call of a
-- plug-in there.
pub mod Delivery
mod Tests
use nginz.Prelude.{
  ℕ, ◌≤◌, ◌≡◌, Bool, true, Option, none, some, List, [], ◌∷◌, ◌++◌, ◌==◌, if◌then◌else◌, assert,
  ◌>>=◌, ◌>>◌, length,
}
use nginz.Xtring.{Xtring}
use nginz.BinaryCoder
use nginz.EventLoop
use nginz.EventLoop.{EventLoop}
use nginz.Pipeline.{Pipeline}

-- The socket pairs of the kernel (SOCK_DGRAM). `queue` holds the datagrams that wait at a socket.
-- `recvmsg` gives the buffer, as long as the room it is called with; `none` is -1.
pub record Pipe : Type 1 where
  pub World : Type 0
  pub peer : ℕ → ℕ
  pub queue : ℕ → World → List (List ℕ)
  pub sendmsg : ℕ → List ℕ → World → Bool × World
  pub recvmsg : ℕ → ℕ → World → Option (List ℕ) × World
  pub close : ℕ → World → World
  pub queue-sendmsg :
      (through : ℕ) (l : List ℕ) (w : World)
      → (sendmsg through l w).0 ≡ true
      → queue (peer through) (sendmsg through l w).1 ≡ queue (peer through) w ++ l ∷ []
  pub recvmsg_lem :
      (q room : ℕ) (l : List ℕ) (rest : List (List ℕ)) (w : World)
      → queue q w ≡ l ∷ rest
      → length l ≤ room
      → (junk : List ℕ) × (length (l ++ junk) ≡ room) × ((recvmsg q room w).0 ≡ some (l ++ junk))

abbrev pub max_binary_msg_len : ℕ
max_binary_msg_len = 1024

module _ (X : Xtring) (K : Pipe) where
  open X use {Txt, bytes, set_length, of_bytes}
  open K use {World, sendmsg, recvmsg, close}

  unfoldable pub pp_simple_sendmsg : ℕ → Txt → World → Bool × World
  pp_simple_sendmsg through pkt w = sendmsg through (bytes pkt) w

  unfoldable pub received_text : Option (List ℕ) → Option Txt
  received_text none = none
  received_text (some buffer) = some (set_length max_binary_msg_len (of_bytes buffer))

  -- The length of the text is the room of the buffer, whatever has come.
  unfoldable pub pp_simple_recvmsg_helper : ℕ → World → Option Txt × World
  pp_simple_recvmsg_helper through w =
      let received = recvmsg through max_binary_msg_len w in (received_text received.0, received.1)

  -- `pm_call` with the name of the plug-in and the whole message.
  module _ {S : Type 0}
      (pm_call : List ℕ → Txt → EventLoop × (S × World) → EventLoop × (S × World)) where
    unfoldable pub read_packet :
        ℕ → Option Txt → EventLoop × (S × World) → Option (EventLoop × (S × World))
    read_packet fd none (loop, (s, w)) = some (loop, (s, close fd w))
    read_packet fd (some cmd) (loop, (s, w)) =
        let call : Option (EventLoop × (S × World)) = (do
          (ok, x) ← BinaryCoder.binary_unpack_string X cmd 1
          some (
              if length (bytes x) == 0
              then (loop, (s, w))
              else pm_call (bytes x) cmd (loop, (s, w)))) in
        if length (bytes cmd) == 0 then some (loop, (s, close fd w)) else call

    -- `is_closed` tells that all of NGINZ_POLL_CLOSE_FLAGS are among the events. Every branch
    -- returns 0.
    unfoldable pub on_bubbles :
        Bool → ℕ → Pipeline → EventLoop × (S × World) → Option (EventLoop × (S × World))
    on_bubbles is_closed fd t (loop, (s, w)) = do
      m ← t.mynode
      assert (fd == (t.nodes m).fd1)
      let received = pp_simple_recvmsg_helper fd w
      let gone = some (EventLoop.event_loop_unregister_fd fd loop, (s, close fd w))
      let read = read_packet fd received.0 (loop, (s, received.1))
      if is_closed then gone else read
