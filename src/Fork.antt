-- ===== src/Fork.antt =====
-- base/src/parallel/fork.c: forking the workers. `fork i` is what the i-th call of `fork` returns,
-- `none` for a failure; the plugins of the three hooks are parameters.
mod Tests
use nginz.Prelude.{
  ℕ, zero, suc, ◌+◌, ◌≡◌, refl, Bool, true, false, Option, none, some, List, [], ◌∷◌, ◌>>=◌, ◌>>◌,
}

module _ {S : Type 0} (fork : ℕ → Option ℕ) (before : S → Option S)
    (parent_after : ℕ → S → Option S) (child_after : ℕ → S → Option S) where
  -- The result (`true` for 0), the master's state, and the state of each child as it starts. The
  -- result of the calls that fork the later children is dropped.
  unfoldable pub fork_processors : ℕ → ℕ → S → Option (Bool × S × List S)
  fork_processors zero i s = some (true, s, [])
  fork_processors (suc nclients) i s = do
    s' ← before s
    elim (fork i) [
      | none ↦ some (false, s', [])
      | some pid ↦ do
        child ← child_after pid s'
        parent ← parent_after pid s'
        (ok, master, others) ← fork_processors nclients (i + 1) parent
        some (true, master, child ∷ others)
    ]

  -- A call that forks one child more.
  pub fork_processors_more :
      (nclients i pid : ℕ) (s s' child parent master : S) (ok : Bool) (others : List S)
      → before s ≡ some s'
      → fork i ≡ some pid
      → child_after pid s' ≡ some child
      → parent_after pid s' ≡ some parent
      → fork_processors nclients (i + 1) parent ≡ some (ok, master, others)
      → fork_processors (suc nclients) i s ≡ some (true, master, child ∷ others)
  unfolding fork_processors
  fork_processors_more nclients i pid s s' child parent master ok others b f c p more =
      rw (b, f, c, p, more) refl

  -- With no child left to fork the state stays.
  pub fork_processors_done : (i : ℕ) (s : S) → fork_processors zero i s ≡ some (true, s, [])
  unfolding fork_processors
  fork_processors_done i s = refl
