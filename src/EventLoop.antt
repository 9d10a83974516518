-- ===== src/EventLoop.antt =====
-- base/src/event_loop_poll.c: the table of descriptors that the process waits for, and the step
-- that calls what is registered for them. A callback and its data are named by numbers.
pub mod Table
pub mod Compact
mod Dispatch
mod Tests
use nginz.Prelude.{
  ℕ, zero, suc, ◌+◌, ◌-◌, Bool, not, ◌&&◌, ◌||◌, Option, none, some, ltb, ◌==◌, if◌then◌else◌,
  assert, ◌>>=◌, ◌>>◌, Array, update, find_first,
}

abbrev pub max_poll_fd : ℕ
max_poll_fd = 20000

-- `struct pollfd`: `events` is 0 in an entry that is unregistered.
pub record PollFd : Type 0 where
  pub fd : ℕ
  pub events : ℕ
  pub revents : ℕ

pub record EventCallback : Type 0 where
  pub on_event : ℕ
  pub event_data : ℕ

pub record EventLoop : Type 0 where
  pub internal_fds : Array PollFd
  pub internal_callback : Array EventCallback
  pub internal_nfds : ℕ

abbrev pub is_live : PollFd → Bool
is_live p = not (p.events == 0)

pub event_loop_fd_count : EventLoop → ℕ
event_loop_fd_count s = s.internal_nfds

-- The process stops if the table is full.
unfoldable pub event_loop_register_fd : ℕ → ℕ → ℕ → ℕ → EventLoop → Option EventLoop
event_loop_register_fd fd on_event event_data requested_events s = do
  assert (ltb s.internal_nfds max_poll_fd)
  some (record s {
    internal_fds =
        update s.internal_fds s.internal_nfds
          (record { fd = fd; events = requested_events; revents = 0 });
    internal_callback =
        update s.internal_callback s.internal_nfds
          (record { on_event = on_event; event_data = event_data });
    internal_nfds = s.internal_nfds + 1;
  })

unfoldable pub clear_events : EventLoop → Option ℕ → EventLoop
clear_events s none = s
clear_events s (some i) = record s {
  internal_fds = update s.internal_fds i (record (s.internal_fds i) { events = 0 });
}

-- The first live entry of the descriptor is marked, and stays in the table.
unfoldable pub event_loop_unregister_fd : ℕ → EventLoop → EventLoop
unfolding clear_events
event_loop_unregister_fd fd s =
    clear_events s
      (find_first (λ i. (s.internal_fds i).fd == fd && is_live (s.internal_fds i)) s.internal_nfds)

-- `for(; last >= 0 && !internal_fds[last].events; last--);` where the argument is `last + 1`.
trim : Array PollFd → ℕ → ℕ
trim fds zero = zero
trim fds (suc last) =
    let shorter = trim fds last in if is_live (fds last) then suc last else shorter

-- `internal_fds[i] = internal_fds[last]; internal_callback[i] = internal_callback[last];`
copy_entry : ℕ → ℕ → EventLoop → EventLoop
copy_entry i last s = record s {
  internal_fds = update s.internal_fds i (s.internal_fds last);
  internal_callback = update s.internal_callback i (s.internal_callback last);
}

-- `for(i = 0; i < last; i++)` from `i` on, with rounds to spend and `n` for `last + 1`. The result
-- is the table and the final `last + 1`.
sweep : ℕ → ℕ → ℕ → EventLoop → EventLoop × ℕ
sweep zero i n s = (s, n)
sweep (suc rounds) i n s =
    let keep = sweep rounds (i + 1) n s in
    let moved = copy_entry i (n - 1) s in
    let drop_last = sweep rounds (i + 1) (trim moved.internal_fds (n - 1)) moved in
    if ltb (i + 1) n then if is_live (s.internal_fds i) then keep else drop_last else (s, n)

-- `i` grows in each round and stays below `last`: as many rounds as entries are enough.
pub event_loop_batch_unregister : EventLoop → EventLoop
unfolding trim copy_entry sweep
event_loop_batch_unregister s =
    let (s', n) = sweep s.internal_nfds 0 (trim s.internal_fds s.internal_nfds) s in
    record s' { internal_nfds = n }

module _ {W : Type 0} (on_event : ℕ → ℕ → ℕ → ℕ → EventLoop × W → EventLoop × W) where
  -- The loop of `event_loop_step_helper`: `count` is what `poll` said, less the calls made. The
  -- callbacks may register and unregister, so the table is read anew in each round.
  pub dispatch : ℕ → ℕ → ℕ → EventLoop × W → EventLoop × W
  dispatch zero i count s = s
  dispatch (suc rounds) i count s =
      let p = s.0.internal_fds i in
      let c = s.0.internal_callback i in
      let skip = dispatch rounds (i + 1) count s in
      let call =
        dispatch rounds (i + 1) (count - 1) (on_event c.on_event p.fd p.revents c.event_data s) in
      if ltb i s.0.internal_nfds && not (count == 0)
      then if p.events == 0 || p.revents == 0 then skip else call
      else s

  -- The table never holds more than `max_poll_fd` entries, so that many rounds are enough.
  pub event_loop_step_helper : ℕ → EventLoop × W → EventLoop × W
  unfolding dispatch event_loop_batch_unregister
  event_loop_step_helper count s =
      let (s', w) = dispatch max_poll_fd 0 count s in (event_loop_batch_unregister s', w)

  -- `poll` sets the `revents` of the first `internal_nfds` entries and returns their count, 0 after
  -- a time-out. `none` is -1, where the process stops.
  pub event_loop_step :
      (EventLoop → W → Option ℕ × Array ℕ × W) → EventLoop × W → Option (EventLoop × W)
  event_loop_step poll (s, w) =
      let (answer, revents, w') = poll s w in
      let polled : EventLoop = record s {
        internal_fds = λ i.
            if ltb i s.internal_nfds
            then record (s.internal_fds i) { revents = revents i }
            else s.internal_fds i;
      } in
      if s.internal_nfds == 0 then some (s, w) else do
        count ← answer
        if count == 0 then some (polled, w') else some (event_loop_step_helper count (polled, w'))
