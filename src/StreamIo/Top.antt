-- ===== src/StreamIo/Top.antt =====
-- What is sent to or closed at a stream goes to the top of its chain.
use nginz.Prelude.{
  ℕ, zero, suc, ◌<◌, ◌≡◌, refl, sym, ap, ◌∙◌, ◌≢◌, Option, none, some, ◌∷◌, arith, ==_refl,
  ==_of_ne, update,
}
use mathlib.Core.Path.{subst}
use nginz.EventLoop
use nginz.EventLoop.{EventLoop}
use nginz.StreamIo.{
  Streams, SendResult, default_streamio_send_nonblock, note_error, default_streamio_close, close_fd,
}

-- `n` steps along `bubble_up` lead from `i` to `top`, above which there is no stream.
unfoldable pub IsTop : Streams → ℕ → ℕ → ℕ → Type 0
IsTop s i zero top = (i ≡ top) × ((s.streams top).bubble_up ≡ none)
IsTop s i (suc n) top = (u : ℕ) × ((s.streams i).bubble_up ≡ some u) × IsTop s u n top

-- The state after closing the stream at the top.
abbrev closed_at : ℕ → ℕ → Streams → Streams
closed_at top fd s = record {
  streams = update s.streams top (record (s.streams top) { fd = none });
  loop = EventLoop.event_loop_unregister_fd fd s.loop;
  closed = fd ∷ s.closed;
}

close_here :
    (s : Streams) (top fuel : ℕ)
    → (s.streams top).bubble_up ≡ none
    → default_streamio_close (suc fuel) top s ≡ some (close_fd top (s.streams top).fd s)
unfolding default_streamio_close
close_here s top fuel none_above = rw (default_streamio_close, none_above) refl

close_top :
    (s : Streams) (top fd fuel : ℕ)
    → (s.streams top).bubble_up ≡ none
    → (s.streams top).fd ≡ some fd
    → default_streamio_close (suc fuel) top s ≡ some (closed_at top fd s)
unfolding close_fd
close_top s top fd fuel none_above has =
    close_here s top fuel none_above ∙ ap (λ (o : Option ℕ). some (close_fd top o s)) has

-- With fuel for the chain, closing a stream closes the descriptor of the top of the chain, takes it
-- out of the event loop, and leaves every other stream as it is.
pub default_streamio_close_lem :
    (s : Streams) (i n top fd : ℕ)
    → IsTop s i n top
    → (s.streams top).fd ≡ some fd
    → (fuel : ℕ) → n < fuel
    → (t : Streams) × (default_streamio_close fuel i s ≡ some t)
      × (t.streams top ≡ record (s.streams top) { fd = none })
      × (t.loop ≡ EventLoop.event_loop_unregister_fd fd s.loop)
      × (t.closed ≡ fd ∷ s.closed)
      × ((j : ℕ) → j ≢ top → t.streams j ≡ s.streams j)
unfolding default_streamio_close IsTop
default_streamio_close_lem s i zero top fd up has zero h = absurd (omega arith)
default_streamio_close_lem s i zero top fd (same, none_above) has (suc fuel) h = (
  closed_at top fd s,
  subst (λ (k : ℕ). default_streamio_close (suc fuel) k s ≡ some (closed_at top fd s)) (sym same)
      (close_top s top fd fuel none_above has),
  rw (==_refl top) refl,
  refl,
  refl,
  λ j ne. rw (==_of_ne top j (λ e. ne (sym e))) refl,
)
default_streamio_close_lem s i (suc n) top fd up has zero h = absurd (omega arith)
default_streamio_close_lem s i (suc n) top fd (u, above, up) has (suc fuel) h =
    let (t, done, here, loop, closed, others) =
      default_streamio_close_lem s u n top fd up has fuel (omega arith) in
    (t, rw (default_streamio_close, above) done, here, loop, closed, others)

module _ {M W : Type 0} (send : ℕ → M → W → SendResult × W) where
  send_top :
      (s : Streams) (w : W) (top fd fuel : ℕ) (msg : M)
      → (s.streams top).bubble_up ≡ none
      → (s.streams top).fd ≡ some fd
      → default_streamio_send_nonblock send (suc fuel) top msg (s, w)
        ≡ some (some (send fd msg w).0, (note_error top (send fd msg w).0 s, (send fd msg w).1))
  unfolding default_streamio_send_nonblock
  send_top s w top fd fuel msg none_above has = rw (none_above, has) refl

  -- With fuel for the chain, what is sent through a stream is written once, to the descriptor of
  -- the top of the chain, and an error is kept there.
  pub default_streamio_send_nonblock_lem :
      (s : Streams) (w : W) (i n top fd : ℕ) (msg : M)
      → IsTop s i n top
      → (s.streams top).fd ≡ some fd
      → (fuel : ℕ) → n < fuel
      → default_streamio_send_nonblock send fuel i msg (s, w)
        ≡ some (some (send fd msg w).0, (note_error top (send fd msg w).0 s, (send fd msg w).1))
  unfolding default_streamio_send_nonblock IsTop
  default_streamio_send_nonblock_lem s w i zero top fd msg up has zero h = absurd (omega arith)
  default_streamio_send_nonblock_lem s w i zero top fd msg (same, none_above) has (suc fuel) h =
      subst
        (λ (k : ℕ).
          default_streamio_send_nonblock send (suc fuel) k msg (s, w)
          ≡ some (some (send fd msg w).0, (note_error top (send fd msg w).0 s, (send fd msg w).1)))
        (sym same) (send_top s w top fd fuel msg none_above has)
  default_streamio_send_nonblock_lem s w i (suc n) top fd msg up has zero h = absurd (omega arith)
  default_streamio_send_nonblock_lem s w i (suc n) top fd msg (u, above, up) has (suc fuel) h =
      rw above (default_streamio_send_nonblock_lem s w u n top fd msg up has fuel (omega arith))
