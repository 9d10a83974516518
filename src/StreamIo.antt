-- ===== src/StreamIo.antt =====
-- net/src/streamio.c: streams in chains. A `struct streamio*` is named by a number, and `none` is
-- NULL or INVALID_FD. The streams have the handlers that `streamio_initialize` sets; a call through
-- `bubble_up` has fuel, and `none` means that it has run out.
mod Top
mod Tests
use nginz.Prelude.{
  ℕ, zero, suc, Bool, true, false, not, Option, none, some, List, ◌∷◌, ◌>>=◌, ◌>>◌, Array, update,
}
use nginz.EventLoop
use nginz.EventLoop.{EventLoop}

pub record Stream : Type 0 where
  pub fd : Option ℕ
  pub bubble_up : Option ℕ
  pub bubble_down : Option ℕ
  pub error : ℕ

-- The streams, the table of descriptors, and the descriptors that were closed.
pub record Streams : Type 0 where
  pub streams : Array Stream
  pub loop : EventLoop
  pub closed : List ℕ

abbrev pub with_stream : ℕ → Stream → Streams → Streams
with_stream i x s = record s { streams = update s.streams i x }

-- What send(2) answers: a count, or -1 with `errno`.
pub data SendResult : Type 0 where
  sent : ℕ → SendResult
  failed : ℕ → SendResult

-- An error is kept in the stream.
pub note_error : ℕ → SendResult → Streams → Streams
note_error i (sent n) s = s
note_error i (failed errno) s = with_stream i (record (s.streams i) { error = errno }) s

module _ {M W : Type 0} (send : ℕ → M → W → SendResult × W) where
  -- The result is `none` inside for the -1 of a dead stream.
  unfoldable pub default_streamio_send :
      ℕ → ℕ → M → Streams × W → Option (Option SendResult × (Streams × W))
  default_streamio_send zero i msg s = none
  default_streamio_send (suc fuel) i msg (s, w) = elim ((s.streams i).bubble_up) [
    | some u ↦ default_streamio_send fuel u msg (s, w)
    | none ↦ elim ((s.streams i).fd) [
      | none ↦ some (none, (s, w))
      | some fd ↦ some (some (send fd msg w).0, (s, (send fd msg w).1))
    ]
  ]

  unfoldable pub default_streamio_send_nonblock :
      ℕ → ℕ → M → Streams × W → Option (Option SendResult × (Streams × W))
  unfolding note_error
  default_streamio_send_nonblock zero i msg s = none
  default_streamio_send_nonblock (suc fuel) i msg (s, w) = elim ((s.streams i).bubble_up) [
    | some u ↦ default_streamio_send_nonblock fuel u msg (s, w)
    | none ↦ elim ((s.streams i).fd) [
      | none ↦ some (none, (s, w))
      | some fd ↦
          some (some (send fd msg w).0, (note_error i (send fd msg w).0 s, (send fd msg w).1))
    ]
  ]

close_fd : ℕ → Option ℕ → Streams → Streams
close_fd i none s = s
close_fd i (some fd) s = record {
  streams = update s.streams i (record (s.streams i) { fd = none });
  loop = EventLoop.event_loop_unregister_fd fd s.loop;
  closed = fd ∷ s.closed;
}

unfoldable pub default_streamio_close : ℕ → ℕ → Streams → Option Streams
unfolding close_fd
default_streamio_close zero i s = none
default_streamio_close (suc fuel) i s = elim ((s.streams i).bubble_up) [
  | some u ↦ default_streamio_close fuel u s
  | none ↦ some (close_fd i (s.streams i).fd s)
]

pub streamio_initialize : ℕ → Streams → Streams
streamio_initialize i s =
    with_stream i (record { fd = none; bubble_up = none; bubble_down = none; error = 0 }) s

close_if : ℕ → Bool → ℕ → Streams → Option Streams
close_if fuel true i s = default_streamio_close fuel i s
close_if fuel false i s = some s

abbrev pub is_null : Option ℕ → Bool
is_null none = true
is_null (some i) = false

close_down : ℕ → Option ℕ → Streams → Option Streams
close_down fuel none s = some s
close_down fuel (some i) s = default_streamio_close fuel i s

-- A stream that is chained elsewhere is closed there first, and what was below `up` is closed.
pub streamio_chain : ℕ → ℕ → ℕ → Streams → Option Streams
unfolding close_if close_down
streamio_chain fuel up down s = do
  s1 ← close_if fuel (not (is_null (s.streams down).bubble_up)) down s
  let s2 = with_stream down (record (s1.streams down) { bubble_up = some up }) s1
  s3 ← close_down fuel (s2.streams up).bubble_down s2
  some (with_stream up (record (s3.streams up) { bubble_down = some down }) s3)
