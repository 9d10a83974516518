-- ===== src/Quitall.antt =====
-- base/src/shake/quitall.c: the two commands that end all processes, each of which passes the
-- command on to the process of the next node.
mod Chain
mod Spread
mod Tests
use nginz.Prelude.{ℕ, Bool, true, not, Option, none, some, if◌then◌else◌, ◌>>=◌, ◌>>◌}
use nginz.Fiber
use nginz.Fiber.{Fibers}
use nginz.Pipeline
use nginz.Pipeline.{Pipeline}

-- "shake/softquitall" and "shake/quitall", as a process calls them
pub data Command : Type 0 where
  softquitall : Command
  quitall : Command

-- The fields of the packet that is sent.
pub record Packet : Type 0 where
  pub pid : ℕ
  pub command : Command

-- What is written into `output`; `silent` leaves it as it is.
pub data Answer : Type 0 where
  silent : Answer
  sending_softquit : Answer
  sending_quit : Answer
  softquit_first : Answer

-- The static variables of one process that the commands use.
pub record Process : Type 0 where
  pub soft_quitall : Bool
  pub fibers : Fibers
  pub pipeline : Pipeline

module _ {W : Type 0} (pp_simple_sendmsg : ℕ → Packet → W → Bool × W) (getpid : ℕ) where
  -- The propagation, with the answer that goes with it. What `pp_send` returns is dropped.
  propagate : Option ℕ → Command → Answer → Pipeline → W → Option (Answer × W)
  propagate none command answer s w = some (silent, w)
  propagate (some next) command answer s w = do
    (sent, w') ←
        Pipeline.pp_send pp_simple_sendmsg next (record { pid = getpid; command = command }) s w
    some (answer, w')

  pub shake_soft_quitall_command : Process × W → Option (Answer × (Process × W))
  unfolding propagate
  shake_soft_quitall_command (p, w) =
      let quit : Option (Answer × (Process × W)) = (do
        (answer, w') ←
            propagate (Pipeline.pp_next_nid p.pipeline) softquitall sending_softquit p.pipeline w
        some (answer, (record p { soft_quitall = true }, w'))) in
      if p.soft_quitall then some (silent, (p, w)) else quit

  pub shake_quitall_command : Process × W → Option (Answer × (Process × W))
  unfolding propagate
  shake_quitall_command (p, w) =
      let quit : Option (Answer × (Process × W)) = (do
        (answer, w') ← propagate (Pipeline.pp_next_nid p.pipeline) quitall sending_quit p.pipeline w
        some (answer, (record p { fibers = Fiber.fiber_quit p.fibers }, w'))) in
      if not p.soft_quitall then some (softquit_first, (p, w)) else quit

  -- What the packet's name calls in the process that reads it.
  pub call_command : Command → Process × W → Option (Answer × (Process × W))
  unfolding shake_soft_quitall_command shake_quitall_command
  call_command softquitall s = shake_soft_quitall_command s
  call_command quitall s = shake_quitall_command s
