-- ===== src/Session/Accept.antt =====
-- apps/chat/src/chat_accept.c: what a client sends, and the arrival of a connection.
use nginz.Prelude.{
  ℕ, ◌-◌, Bool, not, ◌&&◌, ◌||◌, Option, none, some, List, ltb, ◌==◌, if◌then◌else◌, assert, ◌>>=◌,
  ◌>>◌, length, get_or,
}
use nginz.Xtring.{Xtring}
use nginz.EventLoop
use nginz.EventLoop.{EventLoop}
use nginz.BinaryCoder
use nginz.Scanner
use nginz.Chat.{minus_one}
use nginz.Session.{
  nginz_max_chat_msg_size, ChatConnection, Session, unref, is_quitting, chat_alloc, chat_zombie_add,
  default_chat_close, default_chat_send,
}

-- "Cannot process the request\n"
pub data Reply : Type 0 where
  cannot_process : Reply

module _ {W : Type 0} (now : ℕ) (leave logoff : Session × W → Session × W)
    (close_up : ℕ → Session × W → Session × W) where
  -- `chat->strm.close` and `chat_zombie_add` stand together wherever a connection ends.
  unfoldable pub end_chat : Session × W → Option (Session × W)
  end_chat s = do
    let (t, w) = default_chat_close now leave logoff close_up s
    u ← chat_zombie_add t
    some (u, w)

  unfoldable pub end_client : Session × W → Option (ℕ × (Session × W))
  end_client s = do (t, w) ← end_chat s; some (minus_one, (unref t, w))

  -- `on_command` and `on_response` are the hooks of the connection; the `Bool` of `on_command`
  -- tells that it returns 0. `real_send` writes to the stream.
  module _ (on_command : List ℕ → Session × W → Bool × (Session × W))
      (on_response : List ℕ → Session × W → Session × W)
      (real_send : ChatConnection → Reply → W → Bool × W) where
    -- The last lines of the block: the request is not known, unless the client has quit with it.
    unfoldable pub refuse : Session × W → Session × W
    refuse s =
        if is_quitting s.0.chat.state then s else default_chat_send real_send cannot_process s

    -- `do { ... } while(0)`
    unfoldable pub process_request : List ℕ → Session × W → Session × W
    process_request request s =
        let (ok, done) = on_command request s in
        let commanded = if ok then done else refuse done in
        let answered = if s.0.chat.has_callback then on_response request s else refuse s in
        if get_or request 0 0 == 47 && s.0.chat.state.logged_in then commanded else answered

    unfoldable pub handle_chat_request : List ℕ → Session × W → Option (ℕ × (Session × W))
    handle_chat_request request s =
        let close_chat : Session × W → Option (ℕ × (Session × W)) =
          λ t. end_chat t >>= λ u. some (minus_one, u) in
        let done = process_request request s in
        if length request == 0
        then some (0, s)
        else if not (get_or request (length request - 1) 0 == 10)
        then close_chat s
        else if done.0.chat.error || is_quitting done.0.chat.state
        then close_chat done
        else some (0, done)

    -- What comes behind a request: a connection that has quit is closed, if it is not yet, and the
    -- reference of the event loop is given back.
    unfoldable pub after_request : ℕ × (Session × W) → Option (ℕ × (Session × W))
    after_request (ret, s) =
        let close_chat : Option (ℕ × (Session × W)) = (do
          (t, w) ← end_chat s
          some (ret, (unref t, w))) in
        if is_quitting s.0.chat.state then close_chat else some (ret, s)

    -- `recv` gives the bytes that came, none of them when the client has gone, and `none` for -1.
    unfoldable pub receive : Option (List ℕ) → Session × W → Option (ℕ × (Session × W))
    receive none s = end_client s
    receive (some request) s =
        let handle = handle_chat_request request s >>= after_request in
        if length request == 0 || not (ltb (length request) nginz_max_chat_msg_size)
        then end_client s
        else handle

    unfoldable pub on_client_data :
        Bool → (ℕ → W → Option (List ℕ) × W) → ℕ → Session × W → Option (ℕ × (Session × W))
    on_client_data is_quiting recv fd (s, w) =
        let read : Option (ℕ × (Session × W)) = (do
          sock ← s.chat.fd
          assert (sock == fd)
          let (received, w') = recv fd w
          receive received (s, w')) in
        if is_quiting
        then some (0, (s, w))
        else if is_quitting s.chat.state
        then end_client (s, w)
        else read

  -- The arrival. `request` is what `binary_unpack_string(cmd, 2, ..)` gives, and `target` its first
  -- word, which names the plugin that is called.
  module _ (X : Xtring) (bridge_call : List ℕ → List ℕ → Session × W → Session × W) where
    open X use {Txt, bytes, destroyed, of_bytes}

    unfoldable pub start_chat :
        ℕ → ℕ → ℕ → List ℕ → List ℕ → Session × W → Option (ℕ × (Session × W))
    start_chat on_data flags fd request target (s, w) =
        let begin : Option (ℕ × (Session × W)) = (do
          loop ← EventLoop.event_loop_register_fd fd on_data 0 flags s.loop
          some (0, bridge_call target request (record s { loop = loop }, w))) in
        if length target == 0 then end_client (s, w) else begin

    unfoldable pub on_connection_bubble :
        Bool → ℕ → ℕ → ℕ → Txt → Session × W → Option (ℕ × (Session × W))
    on_connection_bubble is_quiting on_data flags fd cmd (s, w) =
        let made = record s { chat = chat_alloc fd; refs = 1; zombies = 0 } in
        let accept : Option (ℕ × (Session × W)) = (do
          (ok, request) ← BinaryCoder.binary_unpack_string X cmd 2
          let target = (Scanner.scanner_next_token X (of_bytes (bytes request)) destroyed).1
          start_chat on_data flags fd (bytes request) (bytes target) (made, w)) in
        if is_quiting then some (0, (s, w)) else accept
