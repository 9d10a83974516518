-- ===== src/Pipeline.antt =====
-- base/src/parallel/pipeline.c: the table of nodes through which the processes reach one another.
-- A `struct nginz_node*` is an index into the table, and `none` is NULL. `fd[0]` is `fd0`.
pub mod Lookup
pub mod Star
mod Tests
use nginz.Prelude.{
  ℕ, zero, suc, ◌+◌, ◌-◌, ◌%◌, Bool, true, false, Option, none, some, List, [], ◌∷◌, ltb, ◌==◌,
  if◌then◌else◌, assert, ◌>>=◌, ◌>>◌, Array, update, find_first,
}
use nginz.EventLoop
use nginz.EventLoop.{EventLoop}

abbrev pub max_process_count : ℕ
max_process_count = 6

pub record NginzNode : Type 0 where
  pub nid : ℕ
  pub fd0 : ℕ
  pub fd1 : ℕ
  pub raw_fd0 : ℕ
  pub raw_fd1 : ℕ

pub record Pipeline : Type 0 where
  pub nodes : Array NginzNode
  pub mynode : Option ℕ

abbrev pub has_nid : Pipeline → ℕ → ℕ → Bool
has_nid s nid i = (s.nodes i).nid == nid

abbrev pub is_mine : Option ℕ → ℕ → Bool
is_mine none i = false
is_mine (some m) i = m == i

raw_fd_at : Pipeline → Option ℕ → Option ℕ
raw_fd_at s none = none
raw_fd_at s (some i) = some (s.nodes i).raw_fd0

-- `none` is the result -1.
pub pp_get_raw_fd : ℕ → Pipeline → Option ℕ
unfolding raw_fd_at
pp_get_raw_fd nid s = raw_fd_at s (find_first (has_nid s nid) max_process_count)

pub pp_find_node : ℕ → Pipeline → Option ℕ
pp_find_node nid s = find_first (has_nid s nid) max_process_count

nid_after : Pipeline → Option ℕ → Option ℕ
nid_after s none = none
nid_after s (some i) = if ltb (i + 1) max_process_count then some (s.nodes (i + 1)).nid else none

-- `none` is the result -1: the last node has no next one.
pub pp_next_nid : Pipeline → Option ℕ
unfolding nid_after
pp_next_nid s = nid_after s (find_first (is_mine s.mynode) max_process_count)

worker_after : Pipeline → Option ℕ → Option ℕ
worker_after s none = none
worker_after s (some i) =
    let next = (i + 1) % max_process_count in some (s.nodes (if next == 0 then 1 else next)).nid

-- `none`: a `nid` that is in no node leaves the index at -1, and the code reads in front of the
-- table.
pub pp_next_worker_nid : ℕ → Pipeline → Option ℕ
unfolding worker_after
pp_next_worker_nid nid s = worker_after s (find_first (has_nid s nid) max_process_count)

pub is_master : Pipeline → Bool
is_master s = is_mine s.mynode 0

module _ {M W : Type 0} (pp_simple_sendmsg : ℕ → M → W → Bool × W) where
  -- The loop of a broadcast; the first failure ends it. `true` is the result 0, `false` is -1.
  send_loop : ℕ → ℕ → Pipeline → M → W → Bool × W
  send_loop zero i s pkt w = (true, w)
  send_loop (suc n) i s pkt w =
      let skip = send_loop n (i + 1) s pkt w in
      let sent = pp_simple_sendmsg (s.nodes i).fd0 pkt w in
      let rest = send_loop n (i + 1) s pkt sent.1 in
      if is_mine s.mynode i then skip else if sent.0 then rest else (false, sent.1)

  send_to : Pipeline → M → W → Option ℕ → Option (Bool × W)
  send_to s pkt w none = none
  send_to s pkt w (some i) = some (pp_simple_sendmsg (s.nodes i).fd0 pkt w)

  -- A process that is in no node stops the sender.
  pub pp_send : ℕ → M → Pipeline → W → Option (Bool × W)
  unfolding send_loop send_to
  pp_send dnid pkt s w =
      if dnid == 0
      then some (send_loop max_process_count 0 s pkt w)
      else send_to s pkt w (pp_find_node dnid s)

set_nid : ℕ → ℕ → Pipeline → Pipeline
set_nid i nid s = record s { nodes = update s.nodes i (record (s.nodes i) { nid = nid }) }

take_node : ℕ → Pipeline → Option ℕ → Option Pipeline
unfolding set_nid
take_node pid s none = none
take_node pid s (some i) = some (record (set_nid i pid s) { mynode = some i })

-- The child's part of the table: it takes the first node with no `nid`. With no such node `mynode`
-- stays NULL, and the code reads through it.
pub child_table : ℕ → Pipeline → Option Pipeline
unfolding take_node
child_table pid s = take_node pid s (find_first (has_nid s 0) max_process_count)

give_node : ℕ → Pipeline → Option ℕ → Pipeline
unfolding set_nid
give_node pid s none = s
give_node pid s (some i) = set_nid i pid s

-- The parent's part of the table: the first node with no `nid` is the child's.
pub parent_table : ℕ → Pipeline → Pipeline
unfolding give_node
parent_table child_pid s = give_node child_pid s (find_first (has_nid s 0) max_process_count)

-- The calls that set up the readers: `on_bubbles` on the node's pipe, and the plugin that listens
-- on its raw pipe.
register_readers :
    ℕ → ℕ → (ℕ → EventLoop → Option EventLoop) → Pipeline → EventLoop → Option EventLoop
register_readers on_bubbles flags raw_setup s loop = do
  m ← s.mynode
  loop' ← EventLoop.event_loop_register_fd (s.nodes m).fd1 on_bubbles 0 flags loop
  raw_setup (s.nodes m).raw_fd1 loop'

pub pp_fork_child_after_callback :
    ℕ
    → ℕ
    → (ℕ → EventLoop → Option EventLoop)
    → ℕ
    → Pipeline × EventLoop
    → Option (Pipeline × EventLoop)
unfolding register_readers
pp_fork_child_after_callback on_bubbles flags raw_setup pid (s, loop) = do
  s' ← child_table pid s
  loop' ← register_readers on_bubbles flags raw_setup s' loop
  some (s', loop')

-- What the master sends to all once the last child is forked: node `index` is the process `nid`.
pub record ChildPid : Type 0 where
  pub nid : ℕ
  pub index : ℕ

pub child_mail : Pipeline → ℕ → ℕ → List ChildPid
child_mail s zero i = []
child_mail s (suc n) i = record { nid = (s.nodes i).nid; index = i } ∷ child_mail s n (i + 1)

-- The list is the mail that goes out, by `async_pm_reply_worker` to destination 0.
pub pp_fork_parent_after_callback :
    ℕ
    → ℕ
    → (ℕ → EventLoop → Option EventLoop)
    → ℕ
    → ℕ
    → Pipeline × EventLoop
    → Option (Pipeline × EventLoop × List ChildPid)
unfolding register_readers
pp_fork_parent_after_callback on_bubbles flags raw_setup mypid child_pid (s, loop) =
    let s' : Pipeline = parent_table child_pid s in
    let last = (s'.nodes (max_process_count - 1)).nid in
    let done : Option (Pipeline × EventLoop × List ChildPid) = (do
      loop' ← register_readers on_bubbles flags raw_setup s' loop
      some (s', loop', child_mail s' (max_process_count - 1) 1)) in
    do
      m ← s'.mynode
      assert ((s'.nodes m).nid == mypid)
      if last == 0 then some (s', loop, []) else done

-- The mail at its receiver. An index outside of the table would be written all the same: `none`.
pub pp_update_siblings_pid : ChildPid → Pipeline → Option Pipeline
unfolding set_nid
pp_update_siblings_pid mail s =
    if is_mine s.mynode mail.index
    then some s
    else if ltb mail.index max_process_count
    then some (set_nid mail.index mail.nid s)
    else none

pub read_mail : List ChildPid → Pipeline → Option Pipeline
read_mail [] s = some s
read_mail (mail ∷ rest) s = do s' ← pp_update_siblings_pid mail s; read_mail rest s'

-- The pipes are made before the first fork; `socketpair` gives four descriptors for each node.
pub pp_module_init : (ℕ → NginzNode) → ℕ → Pipeline
pp_module_init socketpairs mypid = record {
  nodes = λ i. record (socketpairs i) { nid = if i == 0 then mypid else 0 };
  mynode = some 0;
}
