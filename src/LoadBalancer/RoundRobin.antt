-- ===== src/LoadBalancer/RoundRobin.antt =====
-- The connections go round the workers.
use nginz.Prelude.{ℕ, zero, suc, ◌+◌, ◌%◌, ◌<◌, ◌≡◌, refl, ap, Option, some, arith, ◌>>=◌}
use nginz.Pipeline.{Pipeline, max_process_count}
use nginz.Pipeline.Lookup.{IsStar, IsFull, next_worker, pp_next_worker_nid_lem}
use nginz.LoadBalancer.{LoadBalancer, load_balancer_setup, load_balancer_next}

-- `k` connections, one after the other.
unfoldable pub next_times : Pipeline → ℕ → LoadBalancer → Option LoadBalancer
next_times s zero lb = some lb
next_times s (suc k) lb = do lb' ← next_times s k lb; load_balancer_next s lb'

-- The node that the k-th connection goes to.
abbrev pub turn : ℕ → ℕ
turn zero = 0
turn (suc k) = 1 + k % 5

pub turn_next : (k : ℕ) → (turn k < max_process_count) × (next_worker (turn k) ≡ turn (suc k))
turn_next zero = omega arith
turn_next (suc k) = ground arith

-- From the set-up in the master on, the k-th connection goes to worker 1 + (k - 1) % 5: any five
-- connections in a row go to the five workers, one each.
pub load_balancer_next_turns :
    (e : ℕ → ℕ) (s : Pipeline)
    → IsStar e
    → IsFull e s
    → (k : ℕ) → next_times s k (load_balancer_setup (e 0)) ≡ some (record { nid = e (turn k) })
unfolding next_times load_balancer_setup load_balancer_next
load_balancer_next_turns e s star full zero = refl
load_balancer_next_turns e s star full (suc k) =
    let (h, n) = turn_next k in
    rw (load_balancer_next_turns e s star full k, pp_next_worker_nid_lem e (turn k) s star full h)
      (ap (λ (i : ℕ). some (record { nid = e i })) n)
