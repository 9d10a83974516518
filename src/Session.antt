-- ===== src/Session.antt =====
-- apps/chat/src/chat_accept.c, chat_zombie.c and chat_factory.c: one connection of the chat from its
-- arrival at a worker to its end. What the rooms and the database do is a parameter here; Chat and
-- ChatNames are about that. A text is the list of its bytes.
pub mod Accept
pub mod Zombie
mod Release
mod Ending
mod Cleanup
mod Tests
use nginz.Prelude.{
  ℕ, ◌+◌, ◌-◌, Bool, true, false, not, ◌||◌, Option, none, some, List, ◌∷◌, ◌==◌, if◌then◌else◌,
  assert, ◌>>=◌, ◌>>◌,
}
use nginz.EventLoop
use nginz.EventLoop.{EventLoop}
use nginz.Chat.{State}

abbrev pub nginz_max_chat_msg_size : ℕ
nginz_max_chat_msg_size = 255

-- `has_callback` tells that `on_response_callback` is not NULL.
pub record ChatConnection : Type 0 where
  pub fd : Option ℕ
  pub bubble_up : Option ℕ
  pub error : Bool
  pub state : State
  pub has_callback : Bool
  pub quited_at : ℕ

-- The connection with what it shares: the table of descriptors, the descriptors that were closed,
-- the references to the connection, and how often it is in `zombie_list`, which holds one of them.
pub record Session : Type 0 where
  pub chat : ChatConnection
  pub loop : EventLoop
  pub closed : List ℕ
  pub refs : ℕ
  pub zombies : ℕ

abbrev pub with_chat : ChatConnection → Session → Session
with_chat chat s = record s { chat = chat }

abbrev pub with_flags : State → Session → Session
with_flags state s = with_chat (record s.chat { state = state }) s

-- OPPUNREF
abbrev pub unref : Session → Session
unref s = record s { refs = s.refs - 1 }

-- chat->state & CHAT_QUIT || chat->state & CHAT_SOFT_QUIT
abbrev pub is_quitting : State → Bool
is_quitting x = x.quit || x.soft_quit

unfoldable pub chat_alloc : ℕ → ChatConnection
chat_alloc fd = record {
  fd = some fd;
  bubble_up = none;
  error = false;
  state = record {
    logged_in = false;
    in_room = false;
    quit = false;
    soft_quit = false;
    zombie = false;
  };
  has_callback = false;
  quited_at = 0;
}

-- A connection is added once, and only after its close; the assertion is on the time of that.
unfoldable pub chat_zombie_add : Session → Option Session
chat_zombie_add s =
    let add : Option Session = (do
      assert (not (s.chat.quited_at == 0))
      some (record (with_flags (record s.chat.state { zombie = true }) s) {
        zombies = s.zombies + 1;
        refs = s.refs + 1;
      })) in
    if s.chat.state.zombie then some s else add

-- The first lines of the close: the time, which is not 0, and the flag.
unfoldable pub mark_quit : ℕ → Session → Session
mark_quit now s =
    let at = if s.chat.quited_at == 0 then now else s.chat.quited_at in
    let state =
      if is_quitting s.chat.state then s.chat.state else record s.chat.state { quit = true } in
    with_chat (record s.chat { quited_at = at; state = state }) s

-- A soft quit leaves the descriptor open for the process that has it now.
unfoldable pub close_fd : Option ℕ → Session → Session
close_fd none s = s
close_fd (some fd) s = record s {
  chat = record s.chat { fd = none };
  loop = EventLoop.event_loop_unregister_fd fd s.loop;
  closed = if s.chat.state.soft_quit then s.closed else fd ∷ s.closed;
}

module _ {W : Type 0} (now : ℕ) (leave logoff : Session × W → Session × W)
    (close_up : ℕ → Session × W → Session × W) where
  unfoldable pub close_via : Option ℕ → Session × W → Session × W
  unfolding close_fd
  close_via none (s, w) = (close_fd s.chat.fd s, w)
  close_via (some up) s = close_up up s

  -- `leave` and `logoff` are `broadcast_room_leave` and `logoff_user`.
  unfoldable pub default_chat_close : Session × W → Session × W
  unfolding mark_quit close_via
  default_chat_close (s, w) =
      let t : Session × W = (mark_quit now s, w) in
      let left = if t.0.chat.state.in_room then leave t else t in
      let off = if left.0.chat.state.logged_in then logoff left else left in
      close_via off.0.chat.bubble_up off

-- An error of the stream is a soft quit; a connection that ends sends nothing more.
unfoldable pub default_chat_send :
    {M W : Type 0} → (ChatConnection → M → W → Bool × W) → M → Session × W → Session × W
default_chat_send real_send msg (s, w) =
    let (error, w') = real_send s.chat msg w in
    let t = with_chat (record s.chat { error = error }) s in
    if is_quitting s.chat.state || s.chat.state.zombie
    then (s, w)
    else ((if error then with_flags (record t.chat.state { soft_quit = true }) t else t), w')
