-- ===== src/Http/Connection.antt =====
-- apps/http/inc/http.h and apps/http/src/http_factory.c: a connection of the web server, and how it
-- is closed.
use nginz.Prelude.{ℕ, ◌-◌, Bool, false, Option, none, some, List, ◌∷◌, if◌then◌else◌}
use nginz.Xtring.{Xtring}
use nginz.EventLoop
use nginz.EventLoop.{EventLoop}

-- The result -1 of an `int`
abbrev pub minus_one : ℕ
minus_one = 0xffff_ffff

module _ (X : Xtring) where
  open X use {Txt, destroyed}

  -- The stream's descriptor, `none` for INVALID_FD, and the stream that it is chained to; the bits
  -- of `enum http_state`.
  pub record HttpConnection : Type 0 where
    pub fd : Option ℕ
    pub bubble_up : Option ℕ
    pub quit : Bool
    pub soft_quit : Bool
    pub is_processed : Bool
    pub content : Txt

  -- One connection with what it shares: the table of descriptors, the descriptors that were closed,
  -- and the references to the connection that are held.
  pub record Web : Type 0 where
    pub http : HttpConnection
    pub loop : EventLoop
    pub closed : List ℕ
    pub refs : ℕ

  abbrev pub with_http : HttpConnection → Web → Web
  with_http http s = record s { http = http }

  -- OPPUNREF
  abbrev pub unref : Web → Web
  unref s = record s { refs = s.refs - 1 }

  -- What `http_alloc` gives, with the stream as `streamio_initialize` leaves it.
  unfoldable pub http_alloc : ℕ → HttpConnection
  http_alloc fd = record {
    fd = some fd;
    bubble_up = none;
    quit = false;
    soft_quit = false;
    is_processed = false;
    content = destroyed;
  }

  -- A soft quit leaves the descriptor open for the process that has it now.
  unfoldable pub close_fd : Option ℕ → Web → Web
  close_fd none s = s
  close_fd (some fd) s = record s {
    http = record s.http { fd = none };
    loop = EventLoop.event_loop_unregister_fd fd s.loop;
    closed = if s.http.soft_quit then s.closed else fd ∷ s.closed;
  }

  -- `close_up` closes the stream that this one is chained to.
  unfoldable pub close_via : {W : Type 0} → (ℕ → Web × W → Web × W) → Option ℕ → Web × W → Web × W
  unfolding close_fd
  close_via close_up none (s, w) = (close_fd s.http.fd s, w)
  close_via close_up (some up) s = close_up up s

  unfoldable pub default_http_close : {W : Type 0} → (ℕ → Web × W → Web × W) → Web × W → Web × W
  unfolding close_via
  default_http_close close_up s = close_via close_up s.0.http.bubble_up s
