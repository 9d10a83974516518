-- ===== src/LoadBalancer.antt =====
-- apps/load_balancer/src/load_balancer_subsystem.c: the workers in turn.
pub mod RoundRobin
use nginz.Prelude.{ℕ, Option, some, ◌>>=◌, ◌>>◌}
use nginz.Pipeline
use nginz.Pipeline.{Pipeline}

pub record LoadBalancer : Type 0 where
  pub nid : ℕ

pub load_balancer_setup : ℕ → LoadBalancer
load_balancer_setup mypid = record { nid = mypid }

-- The new state holds the result.
pub load_balancer_next : Pipeline → LoadBalancer → Option LoadBalancer
load_balancer_next s lb = do
  nid ← Pipeline.pp_next_worker_nid lb.nid s
  some (record lb { nid = nid })

pub load_balancer_destroy : ℕ → LoadBalancer → LoadBalancer
load_balancer_destroy mypid lb = record lb { nid = mypid }
