-- ===== src/Fork/Tests.antt =====
-- Forking on small examples.
use nginz.Prelude.{◌≡◌, refl, true, none, some, [], ◌∷◌, ◌==◌, if◌then◌else◌}
use nginz.Fork.{fork_processors}

-- A second fork that fails: one child runs, and the result is that of success.
second_fails :
    fork_processors
      (λ i. if i == 0 then some 8 else none)
      some
      (λ pid s. some (pid ∷ s))
      (λ pid s. some s)
      3
      0
      (2 ∷ [])
    ≡ some (true, 8 ∷ 2 ∷ [], (2 ∷ []) ∷ [])
unfolding fork_processors
second_fails = refl
