-- ===== src/Http/Accept.antt =====
-- apps/http/src/http_accept.c: a connection that the master has accepted arrives at a worker.
use nginz.Prelude.{
  ℕ, ◌≡◌, refl, Bool, true, false, not, ◌&&◌, Option, some, List, [], ◌∷◌, ◌==◌, if◌then◌else◌,
  ◌>>=◌, length,
}
use nginz.Xtring.{Xtring}
use nginz.EventLoop
use nginz.EventLoop.{EventLoop}
use nginz.BinaryCoder
use nginz.Scanner
use nginz.Http.Connection.{minus_one, Web, with_http, unref, http_alloc, default_http_close}

-- aroop_txt_equals_static
abbrev pub equals : List ℕ → List ℕ → Bool
equals [] [] = true
equals [] (y ∷ ys) = false
equals (x ∷ xs) [] = false
equals (x ∷ xs) (y ∷ ys) = x == y && equals xs ys

-- "http/welcome"
abbrev pub http_welcome : List ℕ
http_welcome = 104 ∷ 116 ∷ 116 ∷ 112 ∷ 47 ∷ 119 ∷ 101 ∷ 108 ∷ 99 ∷ 111 ∷ 109 ∷ 101 ∷ []

module _ (X : Xtring) {W : Type 0} where
  open X use {Txt, bytes, destroyed, of_bytes}

  module _ (close_up : ℕ → Web X × W → Web X × W)
      (bridge_call : List ℕ → Web X × W → ℕ × (Web X × W)) where
    -- The target command is empty, the welcome, or a plugin's name; `on_data` stands for
    -- `hooks->on_client_data`, and the flags for NGINZ_POLL_ALL_FLAGS.
    unfoldable pub start_connection : ℕ → ℕ → ℕ → List ℕ → Web X × W → Option (Web X × W)
    start_connection on_data flags fd target (s, w) =
        let (t, v) = default_http_close X close_up (s, w) in
        let begin : Option (Web X × W) = (do
          loop ← EventLoop.event_loop_register_fd fd on_data 0 flags s.loop
          let u = record s { loop = loop }
          some (if equals target http_welcome then (u, w) else (bridge_call target (u, w)).1)) in
        if length target == 0 then some (unref X t, v) else begin

    -- The connection of `s` is the one that is made. `is_created` tells whether `on_create` gives
    -- one. The result is 0 for a command that is empty, too.
    unfoldable pub http_on_connection_bubble :
        Bool → Bool → ℕ → ℕ → ℕ → Txt → Web X × W → Option (ℕ × (Web X × W))
    http_on_connection_bubble is_quiting is_created on_data flags fd cmd (s, w) =
        let accept : Option (ℕ × (Web X × W)) = (do
          (ok, request) ← BinaryCoder.binary_unpack_string X cmd 2
          let made = record s { http = record (http_alloc X fd) { content = request }; refs = 1 }
          let target = (Scanner.scanner_next_token X (of_bytes (bytes request)) destroyed).1
          (t, v) ← start_connection on_data flags fd (bytes target) (made, w)
          some (0, (with_http X (record t.http { content = destroyed }) t, v))) in
        if is_quiting
        then some (0, (s, w))
        else if not is_created
        then some (minus_one, (record s { closed = fd ∷ s.closed }, w))
        else accept

    -- A connection that comes with the welcome is registered and kept, and no plugin is called.
    pub start_connection_welcome :
        (on_data flags fd : ℕ) (s : Web X × W) (loop : EventLoop)
        → EventLoop.event_loop_register_fd fd on_data 0 flags s.0.loop ≡ some loop
        → start_connection on_data flags fd http_welcome s ≡ some (record s.0 { loop = loop }, s.1)
    unfolding start_connection
    start_connection_welcome on_data flags fd s loop e = rw e refl
