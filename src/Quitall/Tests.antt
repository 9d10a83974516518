-- ===== src/Quitall/Tests.antt =====
-- The end of all processes on a small example.
use nginz.Prelude.{ℕ, ◌+◌, ◌*◌, ◌<◌, ◌≡◌, refl, true, false, some, [], arith, ◌>>=◌}
use nginz.Fiber.{fiber_module_init}
use nginz.Pipeline.{max_process_count, Pipeline}
use nginz.Pipeline.Lookup.{IsStar}
use nginz.Quitall.{softquitall, quitall}
use nginz.Quitall.Chain.{System, give, deliver_all}
use nginz.Quitall.Spread.{quitall_reaches_all}

abbrev pids : ℕ → ℕ
pids i = 100 + i

abbrev pipes : ℕ → ℕ
pipes i = 4 * i + 3

pids-IsStar : IsStar pids
pids-IsStar = record { nonzero = λ i h. omega arith; distinct = λ i j h k e. omega arith }

abbrev table_of : ℕ → Pipeline
table_of k = record {
  nodes = λ i. record {
    nid = pids i;
    fd0 = pipes i;
    fd1 = 4 * i + 4;
    raw_fd0 = 4 * i + 5;
    raw_fd1 = 4 * i + 6;
  };
  mynode = some k;
}

abbrev six : System
six = record {
  processes =
      λ k. record { soft_quitall = false; fibers = fiber_module_init; pipeline = table_of k };
  mail = [];
}

quitall_reaches_all_example :
    (t u : System) × ((give pids pipes softquitall 0 six >>= deliver_all pids pipes 5) ≡ some t)
    × ((give pids pipes quitall 0 t >>= deliver_all pids pipes 5) ≡ some u)
    × (u.mail ≡ [])
    × ((j : ℕ)
        → j < max_process_count
        → ((t.processes j).soft_quitall ≡ true)
          × ((t.processes j).fibers ≡ (six.processes j).fibers)
          × ((u.processes j).fibers.internal_quit ≡ true))
quitall_reaches_all_example =
    quitall_reaches_all pids pipes pids-IsStar (λ i j h k e. omega arith) six
      (λ k h. (refl, λ i l. refl, λ i l. refl)) refl (λ j h. refl)
