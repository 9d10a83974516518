-- ===== src/Partitioned.antt =====
-- base/src/event_loop_partitioned_openmp_poll.c: the event loop over eight tables, where the
-- remainder of a descriptor says which one is its own. `struct event_loop_data` has the fields of
-- the table of base/src/event_loop_poll.c, and the loops over one table are written alike.
mod Entries
mod Equivalence
mod Tests
use nginz.Prelude.{
  ℕ, zero, suc, ◌+◌, ◌-◌, ◌/◌, ◌%◌, not, ◌&&◌, ◌||◌, Option, some, ltb, ◌==◌, if◌then◌else◌, assert,
  ◌>>=◌, ◌>>◌, Array, update,
}
use nginz.EventLoop
use nginz.EventLoop.{max_poll_fd, EventLoop}

abbrev pub poll_partition : ℕ
poll_partition = 8

abbrev pub max_poll_fd_per_partition : ℕ
max_poll_fd_per_partition = max_poll_fd / poll_partition

pub record Partitions : Type 0 where
  pub edata : Array EventLoop
  pub grand_nfds : ℕ

abbrev pub part_of : ℕ → ℕ
part_of fd = fd % poll_partition

pub event_loop_fd_count : Partitions → ℕ
event_loop_fd_count s = s.grand_nfds

-- The entry behind those in use.
abbrev pub add_entry : ℕ → ℕ → ℕ → ℕ → EventLoop → EventLoop
add_entry fd on_event event_data requested_events pt = record {
  internal_fds =
      update pt.internal_fds pt.internal_nfds
        (record { fd = fd; events = requested_events; revents = 0 });
  internal_callback =
      update pt.internal_callback pt.internal_nfds
        (record { on_event = on_event; event_data = event_data });
  internal_nfds = pt.internal_nfds + 1;
}

-- The code asserts that the total is below `max_poll_fd`. The second line is no guard of the code:
-- there, it writes past the end of the table's array, and what follows is undefined.
pub event_loop_register_fd : ℕ → ℕ → ℕ → ℕ → Partitions → Option Partitions
unfolding event_loop_fd_count
event_loop_register_fd fd on_event event_data requested_events s = do
  assert (ltb (event_loop_fd_count s) max_poll_fd)
  assert (ltb (s.edata (part_of fd)).internal_nfds max_poll_fd_per_partition)
  some (record {
    edata =
        update s.edata (part_of fd)
          (add_entry fd on_event event_data requested_events (s.edata (part_of fd)));
    grand_nfds = s.grand_nfds + 1;
  })

-- The first live entry of the descriptor, in its own table, is marked.
pub event_loop_unregister_fd : ℕ → Partitions → Partitions
event_loop_unregister_fd fd s = record s {
  edata =
      update s.edata (part_of fd) (EventLoop.event_loop_unregister_fd fd (s.edata (part_of fd)));
}

pub event_loop_batch_unregister : ℕ → Partitions → Partitions
event_loop_batch_unregister part s = record s {
  edata = update s.edata part (EventLoop.event_loop_batch_unregister (s.edata part));
}

-- `for(part = 0; part < POLL_PARTITION; part++) grand_nfds += edata[part].nfds;`
pub total_nfds : ℕ → Array EventLoop → ℕ
total_nfds zero edata = 0
total_nfds (suc part) edata = total_nfds part edata + (edata part).internal_nfds

pub recount : Partitions → Partitions
unfolding total_nfds
recount s = record s { grand_nfds = total_nfds poll_partition s.edata }

-- The loop of the self test, with `event_loop_batch_unregister(edata+part)` in it, for `part` below
-- the argument. It compacts every table, where the step compacts those alone that have events.
pub batch_all : ℕ → Partitions → Partitions
unfolding event_loop_batch_unregister
batch_all zero s = s
batch_all (suc part) s = event_loop_batch_unregister part (batch_all part s)

pub event_loop_module_init : Partitions → Partitions
event_loop_module_init s = record {
  edata = λ part.
      if ltb part poll_partition then record (s.edata part) { internal_nfds = 0 } else s.edata part;
  grand_nfds = 0;
}

finish : {W : Type 0} → ℕ → Partitions × W → Partitions × W
unfolding event_loop_batch_unregister
finish part (s, w) = (event_loop_batch_unregister part s, w)

module _ {W : Type 0} (on_event : ℕ → ℕ → ℕ → ℕ → Partitions × W → Partitions × W) where
  -- The loop over one table: `count` is what `poll` said, less the calls made. A callback may
  -- register and unregister in any table, so the table is read anew in each round.
  pub dispatch : ℕ → ℕ → ℕ → ℕ → Partitions × W → Partitions × W
  dispatch zero part i count s = s
  dispatch (suc rounds) part i count s =
      let p = (s.0.edata part).internal_fds i in
      let c = (s.0.edata part).internal_callback i in
      let skip = dispatch rounds part (i + 1) count s in
      let call =
        dispatch rounds part (i + 1) (count - 1)
          (on_event c.on_event p.fd p.revents c.event_data s) in
      if ltb i (s.0.edata part).internal_nfds && not (count == 0)
      then if p.events == 0 || p.revents == 0 then skip else call
      else s

  pub event_loop_step_helper : ℕ → ℕ → Partitions × W → Partitions × W
  unfolding dispatch
  event_loop_step_helper part count s = dispatch max_poll_fd_per_partition part 0 count s

  step_part :
      (EventLoop → W → Option ℕ × Array ℕ × W) → ℕ → Partitions × W → Option (Partitions × W)
  unfolding event_loop_step_helper finish
  step_part poll part (s, w) =
      let pt = s.edata part in
      let (answer, revents, w') = poll pt w in
      let polled : Partitions = record s {
        edata = update s.edata part (record pt {
          internal_fds = λ i.
              if ltb i pt.internal_nfds
              then record (pt.internal_fds i) { revents = revents i }
              else pt.internal_fds i;
        });
      } in
      if pt.internal_nfds == 0 then some (s, w) else do
        count ← answer
        if count == 0
            then some (polled, w')
            else some (finish part (event_loop_step_helper part count (polled, w')))

  step_parts :
      (EventLoop → W → Option ℕ × Array ℕ × W) → ℕ → ℕ → Partitions × W → Option (Partitions × W)
  unfolding step_part
  step_parts poll zero part s = some s
  step_parts poll (suc n) part s = step_part poll part s >>= λ t. step_parts poll n (part + 1) t

  -- `poll` is poll(2) on one table: `none` is -1, where the process stops.
  pub event_loop_step :
      (EventLoop → W → Option ℕ × Array ℕ × W) → Partitions × W → Option (Partitions × W)
  unfolding event_loop_fd_count step_parts recount
  event_loop_step poll s =
      let step : Option (Partitions × W) = (do
        (t, w) ← step_parts poll poll_partition 0 s
        some (recount t, w)) in
      if event_loop_fd_count s.0 == 0 then some s else step
