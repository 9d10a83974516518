-- ===== src/Quitall/Spread.antt =====
-- All processes end.
use nginz.Prelude.{
  ℕ, zero, suc, ◌+◌, ◌≤◌, ◌<◌, ◌≡◌, refl, ap, ◌∙◌, true, false, some, [], ◌∷◌, arith, ◌==◌, ==_refl,
  ==_of_ne, ◌>>=◌, Array, update,
}
use native.Mathlib.Decide.{ℕ_discrete}
use mathlib.Core.Path.{subst}
use nginz.Pipeline.{max_process_count}
use nginz.Pipeline.Lookup.{IsStar}
use nginz.Quitall.{Command, softquitall, quitall, Packet, Process}
use nginz.Quitall.Chain.{
  System, give, deliver, deliver_to, deliver_all, IsWired, IsDistinct, taken, IsReady, find_fd,
  give_lem, give_last,
}

taken-pipeline : (command : Command) (p : Process) → (taken command p).pipeline ≡ p.pipeline
taken-pipeline softquitall p = refl
taken-pipeline quitall p = refl

module _ (e fd : ℕ → ℕ) where
  taken-IsWired :
      (command : Command) (k : ℕ) (s : System)
      → IsWired e fd s
      → IsWired e fd
          (record { processes = update s.processes k (taken command (s.processes k)); mail = [] })
  taken-IsWired command k s wired j h = elim (ℕ_discrete k j) [
    | yes same ↦
        let t : (k == j) ≡ true = ground arith in
        rw (t, taken-pipeline command (s.processes k), same) (wired j h)
    | no ne ↦ rw (==_of_ne k j ne) (wired j h)
  ]

-- From node `k` on every process has taken the command, the others are as before, and no packet is
-- left.
abbrev pub Spread : Command → ℕ → System → System → Type 0
Spread command k s t =
    (t.mail ≡ [])
    × ((j : ℕ) → k ≤ j → j < max_process_count → t.processes j ≡ taken command (s.processes j))
    × ((j : ℕ) → j < k → t.processes j ≡ s.processes j)

module _ (e fd : ℕ → ℕ) (star : IsStar e) (distinct : IsDistinct e fd) where
  deliver_lem :
      (k : ℕ) (packet : Packet) (ps : Array Process)
      → k < max_process_count
      → deliver e fd (record { processes = ps; mail = (fd k, packet) ∷ [] })
        ≡ give e fd packet.command k (record { processes = ps; mail = [] })
  unfolding deliver deliver_to
  deliver_lem k packet ps h = rw (find_fd e fd star distinct k h) refl

  spread :
      (n k : ℕ) (command : Command) (s : System)
      → k + n ≡ 5
      → IsWired e fd s
      → s.mail ≡ []
      → ((j : ℕ) → k ≤ j → j < max_process_count → IsReady command (s.processes j))
      → (t : System) × ((give e fd command k s >>= deliver_all e fd n) ≡ some t)
        × Spread command k s t
  unfolding deliver_all
  spread zero k command s len wired none_left go =
      let e5 : 5 ≡ k = omega arith in
      let last =
        give_last e fd star distinct command s wired none_left (go 5 (omega arith) (omega arith)) in
      let t : System = record {
        processes = update s.processes 5 (taken command (s.processes 5));
        mail = [];
      } in
      subst
        (λ (i : ℕ).
          (t : System) × ((give e fd command i s >>= deliver_all e fd 0) ≡ some t)
          × Spread command i s t)
        e5
        (
          t,
          rw last refl,
          (
            refl,
            λ j lo h. let same : j ≡ 5 = omega arith in rw same refl,
            λ j h. rw (==_of_ne 5 j (omega arith)) refl,
          ),
        )
  spread (suc n) k command s len wired none_left go =
      let s2 : System = record {
        processes = update s.processes k (taken command (s.processes k));
        mail = [];
      } in
      let other : ((j : ℕ) → k + 1 ≤ j → s2.processes j ≡ s.processes j) =
        λ j lo. rw (==_of_ne k j (omega arith)) refl in
      let (t, done, (empty, above, below)) =
        spread n (k + 1) command s2 (omega arith) (taken-IsWired e fd command k s wired) refl
          (λ j lo h. rw (other j lo) (go j (omega arith) h)) in
      (
        t,
        rw
            (
              give_lem e fd star distinct command k s (omega arith) wired none_left
                  (go k (omega arith) (omega arith)),
              deliver_lem (k + 1) (record { pid = e k; command = command }) s2.processes
                  (omega arith),
            )
            done,
        (
          empty,
          λ j lo h. elim (ℕ_discrete k j) [
            | yes same ↦
                let here : (k == k) ≡ true = ==_refl k in
                subst (λ (i : ℕ). t.processes i ≡ taken command (s.processes i)) same
                  (below k (omega arith) ∙ rw here refl)
            | no ne ↦ above j (omega arith) h ∙ ap (taken command) (other j (omega arith))
          ],
          λ j h. below j (omega arith) ∙ rw (==_of_ne k j (omega arith)) refl,
        ),
      )

  -- A soft quit that is given to the master reaches all processes within five deliveries, and so
  -- does the quit that is given to it afterwards: the fibers of every process then stop, and no
  -- packet is left. The tables are those of the star, no two nodes share a pipe, and no process
  -- has taken a soft quit before.
  pub quitall_reaches_all :
      (s : System)
      → IsWired e fd s
      → s.mail ≡ []
      → ((j : ℕ) → j < max_process_count → (s.processes j).soft_quitall ≡ false)
      → (t u : System) × ((give e fd softquitall 0 s >>= deliver_all e fd 5) ≡ some t)
        × ((give e fd quitall 0 t >>= deliver_all e fd 5) ≡ some u)
        × (u.mail ≡ [])
        × ((j : ℕ)
            → j < max_process_count
            → ((t.processes j).soft_quitall ≡ true)
              × ((t.processes j).fibers ≡ (s.processes j).fibers)
              × ((u.processes j).fibers.internal_quit ≡ true))
  quitall_reaches_all s wired none_left fresh =
      let (t, softly, (empty, all, rest)) =
        spread 5 0 softquitall s refl wired none_left (λ j lo h. fresh j h) in
      let wired' : IsWired e fd t = λ j h. rw (all j (omega arith) h) (wired j h) in
      let (u, done, (empty', all', rest')) =
        spread 5 0 quitall t refl wired' empty (λ j lo h. rw (all j (omega arith) h) refl) in
      (
        t,
        u,
        softly,
        done,
        empty',
        λ j h. (
          rw (all j (omega arith) h) refl,
          rw (all j (omega arith) h) refl,
          rw (all' j (omega arith) h) refl,
        ),
      )
