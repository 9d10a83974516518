-- ===== src/Pipeline/Star.antt =====
-- The set-up of the star: after the forks and the mail of the master every process has the same
-- table, and knows its own node.
use nginz.Prelude.{
  ℕ, zero, suc, ◌+◌, ◌-◌, ◌<◌, ◌≡◌, refl, sym, ap, ◌∙◌, Bool, true, Option, some, List, [], ◌∷◌,
  arith, ltb, ◌==◌, ==_of_ne,
}
use native.Mathlib.Decide.{dec_lt, ℕ_discrete}
use mathlib.Core.Path.{subst}
use nginz.Fork.{fork_processors, fork_processors_more, fork_processors_done}
use nginz.Pipeline.{
  max_process_count, NginzNode, Pipeline, set_nid, child_table, parent_table, child_mail,
  pp_update_siblings_pid, read_mail, pp_module_init,
}
use nginz.Pipeline.Lookup.{IsStar, IsFilled, IsFull, first_free}

module _ (e : ℕ → ℕ) (star : IsStar e) where
  set_nid-IsFilled :
      (k : ℕ) (s : Pipeline) → IsFilled e k s → IsFilled e (suc k) (set_nid k (e k) s)
  unfolding set_nid
  set_nid-IsFilled k s f = (
    λ i h. elim (ℕ_discrete k i) [
      | yes same ↦ let t : (k == i) ≡ true = ground arith in rw t (ap e same)
      | no ne ↦ rw (==_of_ne k i ne) (f.0 i (omega arith))
    ],
    λ i lo h. rw (==_of_ne k i (omega arith)) (f.1 i (omega arith) h),
  )

  parent_table_fills :
      (k : ℕ) (s : Pipeline)
      → IsFilled e k s
      → k < max_process_count
      → IsFilled e (suc k) (parent_table (e k) s) × ((parent_table (e k) s).mynode ≡ s.mynode)
  unfolding parent_table
  parent_table_fills k s f h =
      rw (first_free e k s star f h) (set_nid-IsFilled k s f, unfold set_nid in refl)

  child_table_takes :
      (k : ℕ) (s : Pipeline)
      → IsFilled e k s
      → k < max_process_count
      → (c : Pipeline) × (child_table (e k) s ≡ some c) × (c.mynode ≡ some k) × IsFilled e (suc k) c
  unfolding child_table
  child_table_takes k s f h = (
    record (set_nid k (e k) s) { mynode = some k },
    rw (first_free e k s star f h) refl,
    refl,
    set_nid-IsFilled k s f,
  )

  -- Every node is `e`'s, and the process is that of node `k`.
  abbrev pub Agrees : ℕ → Pipeline → Type 0
  Agrees k s = (s.mynode ≡ some k) × IsFull e s

  update_mail :
      (k i nid : ℕ) (c : Pipeline)
      → c.mynode ≡ some k
      → i < max_process_count
      → nid ≡ e i
      → ((j : ℕ) → j < i → (c.nodes j).nid ≡ e j)
      → (c.nodes k).nid ≡ e k
      → (c' : Pipeline) × (pp_update_siblings_pid (record { nid = nid; index = i }) c ≡ some c')
        × (c'.mynode ≡ some k)
        × ((j : ℕ) → j < i + 1 → (c'.nodes j).nid ≡ e j)
        × ((c'.nodes k).nid ≡ e k)
  unfolding pp_update_siblings_pid
  update_mail k i nid c me h same below mine = elim (ℕ_discrete k i) [
    | yes here ↦
        let t : (k == i) ≡ true = ground arith in
        (
          c,
          rw (me, t) refl,
          me,
          λ j l. elim (dec_lt j i) [
            | yes l' ↦ below j l'
            | no l' ↦ subst (λ (x : ℕ). (c.nodes x).nid ≡ e x) (omega arith) mine
          ],
          mine,
        )
    | no ne ↦
        let t : ltb i max_process_count ≡ true = ground arith in
        (
          set_nid i nid c,
          rw (me, ==_of_ne k i ne, t) refl,
          unfold set_nid in me,
          λ j l.
              unfold set_nid in
              elim (ℕ_discrete i j) [
                | yes at_j ↦ let u : (i == j) ≡ true = ground arith in rw u (same ∙ ap e at_j)
                | no ne' ↦ rw (==_of_ne i j ne') (below j (omega arith))
              ],
          unfold set_nid in rw (==_of_ne i k (λ d. ne (sym d))) mine,
        )
  ]

  read_mail-Agrees :
      (n i k : ℕ) (m c : Pipeline)
      → i + n ≡ max_process_count
      → IsFull e m
      → c.mynode ≡ some k
      → ((j : ℕ) → j < i → (c.nodes j).nid ≡ e j)
      → (c.nodes k).nid ≡ e k
      → (c' : Pipeline) × (read_mail (child_mail m n i) c ≡ some c') × Agrees k c'
  unfolding read_mail child_mail
  read_mail-Agrees zero i k m c len full me below mine =
      (c, refl, (me, λ j h. below j (omega arith)))
  read_mail-Agrees (suc n) i k m c len full me below mine =
      let h : i < max_process_count = omega arith in
      let (c1, done, me', below', mine') =
        update_mail k i (m.nodes i).nid c me h (full i h) below mine in
      let (c2, done', agrees) =
        read_mail-Agrees n (i + 1) k m c1 (omega arith) full me' below' mine' in
      (c2, rw (done, done') refl, agrees)

  -- The children from node `k` on, as they start.
  abbrev Children : ℕ → List Pipeline → Type 0
  Children k [] = k ≡ max_process_count
  Children k (c ∷ rest) =
      (c.mynode ≡ some k) × IsFilled e (suc k) c × (k < max_process_count) × Children (suc k) rest

  abbrev pub run_forks : ℕ → ℕ → Pipeline → Option (Bool × Pipeline × List Pipeline)
  run_forks =
      fork_processors (λ i. some (e (i + 1))) some (λ pid s. some (parent_table pid s)) child_table

  forks_fill :
      (n i k : ℕ) (s : Pipeline)
      → k ≡ i + 1
      → k + n ≡ max_process_count
      → IsFilled e k s
      → (m : Pipeline) × (children : List Pipeline) × (run_forks n i s ≡ some (true, m, children))
        × IsFull e m
        × (m.mynode ≡ s.mynode)
        × Children k children
  forks_fill zero i k s at_k len f =
      (s, [], fork_processors_done _ _ _ _ i s, λ j h. f.0 j (omega arith), refl, omega arith)
  forks_fill (suc n) i k s at_k len f =
      let h : k < max_process_count = omega arith in
      let (f', me) = parent_table_fills k s f h in
      let (c, child, mine, filled) = child_table_takes k s f h in
      let (m, rest, more, full, me', others) =
        forks_fill n (i + 1) (suc k) (parent_table (e k) s) (omega arith) (omega arith) f' in
      (
        m,
        c ∷ rest,
        fork_processors_more _ _ _ _ n i (e k) s s c (parent_table (e k) s) m true rest refl
            (ap (λ (x : ℕ). some (e x)) (sym at_k)) child refl more,
        full,
        me' ∙ me,
        (mine, filled, h, others),
      )

  -- What holds of the children from node `k` on, once they have read the master's mail.
  abbrev pub Joined : Pipeline → ℕ → List Pipeline → Type 0
  Joined m k [] = k ≡ max_process_count
  Joined m k (c ∷ rest) =
      ((c' : Pipeline) × (read_mail (child_mail m (max_process_count - 1) 1) c ≡ some c')
        × Agrees k c')
      × Joined m (suc k) rest

  Children-join :
      (k : ℕ) (m : Pipeline) (children : List Pipeline)
      → IsFull e m
      → 0 < k
      → Children k children
      → Joined m k children
  Children-join k m [] full pos h = h
  Children-join k m (c ∷ rest) full pos (me, filled, h, others) = (
    read_mail-Agrees 5 1 k m c refl full me (λ j l. filled.0 j (omega arith))
        (filled.0 k (omega arith)),
    Children-join (suc k) m rest full (omega arith) others,
  )

  -- The five forks succeed; the master's table then holds all six processes, and each worker's
  -- table does once it has read the mail. The master is node 0 and the workers are nodes 1 to 5.
  pub fork_processors_star :
      (socketpairs : ℕ → NginzNode)
      → (m : Pipeline) × (children : List Pipeline) × (run_forks 5 0
            (pp_module_init socketpairs (e 0))
          ≡ some (true, m, children))
        × Agrees 0 m
        × Joined m 1 children
  unfolding pp_module_init
  fork_processors_star socketpairs =
      let start : Pipeline = pp_module_init socketpairs (e 0) in
      let filled : IsFilled e 1 start = (
        λ i h. let z : i ≡ 0 = omega arith in rw z refl,
        λ i lo h. rw (==_of_ne i 0 (omega arith)) refl,
      ) in
      let (m, children, done, full, me, others) = forks_fill 5 0 1 start refl refl filled in
      (m, children, done, (me, full), Children-join 1 m children full (omega arith) others)
