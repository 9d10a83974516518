-- ===== src/Pipeline/Tests.antt =====
-- The star of processes on small examples.
use nginz.Prelude.{ℕ, ◌+◌, ◌*◌, ◌≡◌, true, some, List, arith}
use nginz.Pipeline.{NginzNode, Pipeline, pp_module_init}
use nginz.Pipeline.Lookup.{IsStar}
use nginz.Pipeline.Star.{run_forks, Agrees, Joined, fork_processors_star}

-- Processes 100 to 105.
abbrev pids : ℕ → ℕ
pids i = 100 + i

pids-IsStar : IsStar pids
pids-IsStar = record { nonzero = λ i h. omega arith; distinct = λ i j h k e. omega arith }

abbrev sockets : ℕ → NginzNode
sockets i = record {
  nid = 0;
  fd0 = 4 * i + 3;
  fd1 = 4 * i + 4;
  raw_fd0 = 4 * i + 5;
  raw_fd1 = 4 * i + 6;
}

abbrev star : Pipeline
star = record { nodes = λ i. record (sockets i) { nid = pids i }; mynode = some 0 }

fork_processors_star_example :
    (m : Pipeline) × (children : List Pipeline) × (run_forks pids pids-IsStar 5 0
        (pp_module_init sockets 100)
      ≡ some (true, m, children))
    × Agrees pids pids-IsStar 0 m
    × Joined pids pids-IsStar m 1 children
fork_processors_star_example = fork_processors_star pids pids-IsStar sockets
