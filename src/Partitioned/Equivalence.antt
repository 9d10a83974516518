-- ===== src/Partitioned/Equivalence.antt =====
-- The partitioned event loop beside that of base/src/event_loop_poll.c, on the same operations.
use nginz.Prelude.{
  ℕ, ◌+◌, ◌≤◌, ◌<◌, ◌≡◌, refl, sym, ap, ◌∙◌, ◌≢◌, inl, inr, Bool, true, false, not, ◌&&◌, Option,
  some, List, [], ◌∷◌, arith, ltb, ◌==◌, if◌then◌else◌, eq_of_==, ==_of_ne, ltb-true, Bool-cases,
  ◌>>=◌, update,
}
use nginz.EventLoop
use nginz.EventLoop.{max_poll_fd, EventLoop}
use nginz.EventLoop.Table.{count_live}
use nginz.EventLoop.Compact.{event_loop_batch_unregister_lem}
use nginz.Partitioned
use nginz.Partitioned.{
  Partitions, poll_partition, max_poll_fd_per_partition, part_of, add_entry, total_nfds, recount,
  batch_all,
}
use nginz.Partitioned.Entries.{
  has_fd, live_of, add_entry-live, unregister-live, unregister-nfds, batch_all-live,
  total_nfds-batch_all, total_nfds-le, total_nfds-update,
}

-- What a program does to its event loop; `compact` is the removal at the end of a step.
pub data Op : Type 0 where
  register : ℕ → ℕ → ℕ → ℕ → Op
  unregister : ℕ → Op
  compact : Op

unfoldable pub poll_op : Op → EventLoop → Option EventLoop
poll_op (register fd c x events) s = EventLoop.event_loop_register_fd fd c x events s
poll_op (unregister fd) s = some (EventLoop.event_loop_unregister_fd fd s)
poll_op compact s = some (EventLoop.event_loop_batch_unregister s)

unfoldable pub part_op : Op → Partitions → Option Partitions
part_op (register fd c x events) t = Partitioned.event_loop_register_fd fd c x events t
part_op (unregister fd) t = some (Partitioned.event_loop_unregister_fd fd t)
part_op compact t = some (recount (batch_all poll_partition t))

unfoldable pub poll_run : List Op → EventLoop → Option EventLoop
poll_run [] s = some s
poll_run (o ∷ l) s = poll_op o s >>= poll_run l

unfoldable pub part_run : List Op → Partitions → Option Partitions
part_run [] t = some t
part_run (o ∷ l) t = part_op o t >>= part_run l

-- How many registrations are in the list.
abbrev pub registrations : List Op → ℕ
registrations [] = 0
registrations (register fd c x events ∷ l) = registrations l + 1
registrations (unregister fd ∷ l) = registrations l
registrations (compact ∷ l) = registrations l

-- Each descriptor has as many live entries here as there.
abbrev pub Agree : EventLoop → Partitions → Type 0
Agree s t = (g : ℕ) → live_of g s ≡ live_of g (t.edata (part_of g))

-- The total of the partitions is the number of their entries.
abbrev pub IsCounted : Partitions → Type 0
IsCounted t = t.grand_nfds ≡ total_nfds poll_partition t.edata

-- Both loops have at most `n` entries, and agree.
abbrev Paired : ℕ → EventLoop → Partitions → Type 0
Paired n s t = Agree s t × IsCounted t × (s.internal_nfds ≤ n) × (t.grand_nfds ≤ n)

part_fits :
    (t : Partitions) (fd : ℕ) → IsCounted t → (t.edata (part_of fd)).internal_nfds ≤ t.grand_nfds
part_fits t fd e =
    let below : part_of fd < poll_partition = omega arith in
    omega (arith, total_nfds-le poll_partition (part_of fd) t.edata below)

-- Where one table is exchanged for one that differs in the entries of its own descriptors.
update-live :
    (t : Partitions) (fd g : ℕ) (pt : EventLoop) (u : ℕ)
    → (part_of fd ≡ part_of g → live_of g pt ≡ u)
    → (part_of fd ≢ part_of g → live_of g (t.edata (part_of g)) ≡ u)
    → live_of g (update t.edata (part_of fd) pt (part_of g)) ≡ u
update-live t fd g pt u same other = elim (Bool-cases (part_of fd == part_of g)) [
  | inl e ↦ rw e (same (eq_of_== (part_of fd) (part_of g) e))
  | inr e ↦ rw e (other (λ q. ground arith))
]

count_none : (b : Bool) → ◌≡◌ {A = ℕ} (if b && false then 1 else 0) 0
count_none true = refl
count_none false = refl

register-Paired :
    (fd c x events n : ℕ) (s : EventLoop) (t : Partitions)
    → n < max_poll_fd_per_partition
    → Paired n s t
    → (a : EventLoop) × (b : Partitions) × (poll_op (register fd c x events) s ≡ some a)
      × (part_op (register fd c x events) t ≡ some b)
      × Paired (n + 1) a b
unfolding poll_op part_op EventLoop.event_loop_register_fd Partitioned.event_loop_register_fd
    Partitioned.event_loop_fd_count
register-Paired fd c x events n s t small (agree, counted, fits, total) =
    let part = part_of fd in
    let h : (t.edata part).internal_nfds ≤ t.grand_nfds = part_fits t fd counted in
    let e1 : ltb s.internal_nfds max_poll_fd ≡ true = ltb-true _ _ (omega arith) in
    let e2 : ltb t.grand_nfds max_poll_fd ≡ true = ltb-true _ _ (omega arith) in
    let e3 : ltb (t.edata part).internal_nfds max_poll_fd_per_partition ≡ true =
      ltb-true _ _ (omega arith) in
    let pt : EventLoop = add_entry fd c x events (t.edata part) in
    let a : EventLoop = add_entry fd c x events s in
    let b : Partitions = record { edata = update t.edata part pt; grand_nfds = t.grand_nfds + 1 } in
    let sum = total_nfds-update poll_partition part t.edata pt (omega arith) in
    (
      a,
      b,
      rw e1 refl,
      rw (e2, e3) refl,
      (
        λ g. sym (
            update-live t fd g pt (live_of g a)
              (λ q.
                add_entry-live fd c x events g (t.edata part)
                ∙ rw (add_entry-live fd c x events g s, agree g, q) refl)
              (λ ne.
                let far : (fd == g) ≡ false = ==_of_ne fd g (λ q. ne (ap part_of q)) in
                sym (
                  add_entry-live fd c x events g s
                  ∙ rw far (omega (arith, agree g, count_none (not (events == 0))))))),
        omega (arith, sum),
        omega arith,
        omega arith,
      ),
    )

unregister-Paired :
    (fd n : ℕ) (s : EventLoop) (t : Partitions)
    → Paired n s t
    → Paired n (EventLoop.event_loop_unregister_fd fd s) (Partitioned.event_loop_unregister_fd fd t)
unfolding Partitioned.event_loop_unregister_fd
unregister-Paired fd n s t (agree, counted, fits, total) =
    let part = part_of fd in
    let pt : EventLoop = EventLoop.event_loop_unregister_fd fd (t.edata part) in
    let u : EventLoop = EventLoop.event_loop_unregister_fd fd s in
    (
      λ g. sym (
          update-live t fd g pt (live_of g u)
            (λ q.
              unregister-live fd g (t.edata part) ∙ rw (unregister-live fd g s, agree g, q) refl)
            (λ ne.
              let far : (fd == g) ≡ false = ==_of_ne fd g (λ q. ne (ap part_of q)) in
              sym (unregister-live fd g s ∙ rw far (agree g)))),
      omega (
        arith,
        counted,
        unregister-nfds fd (t.edata part),
        total_nfds-update poll_partition part t.edata pt (omega arith),
      ),
      omega (arith, unregister-nfds fd s),
      total,
    )

compact-Paired :
    (n : ℕ) (s : EventLoop) (t : Partitions)
    → Paired n s t
    → Paired n (EventLoop.event_loop_batch_unregister s) (recount (batch_all poll_partition t))
unfolding recount
compact-Paired n s t (agree, counted, fits, total) =
    let swept = event_loop_batch_unregister_lem s in
    (
      λ g. swept.0 (has_fd g) ∙ agree g ∙ sym (batch_all-live poll_partition g (part_of g) t),
      refl,
      omega (arith, swept.2),
      omega (arith, counted, total_nfds-batch_all poll_partition poll_partition t),
    )

run-Paired :
    (ops : List Op) (n : ℕ) (s : EventLoop) (t : Partitions)
    → n + registrations ops ≤ max_poll_fd_per_partition
    → Paired n s t
    → (a : EventLoop) × (b : Partitions) × (poll_run ops s ≡ some a)
      × (part_run ops t ≡ some b)
      × Paired (n + registrations ops) a b
unfolding poll_run part_run poll_op part_op
run-Paired [] n s t room (agree, counted, fits, total) =
    (s, t, refl, refl, (agree, counted, omega arith, omega arith))
run-Paired (register fd c x events ∷ l) n s t room paired =
    let (a, b, ea, eb, next) = register-Paired fd c x events n s t (omega arith) paired in
    let (a', b', ea', eb', (agree, counted, fits, total)) =
      run-Paired l (n + 1) a b (omega arith) next in
    (a', b', rw ea ea', rw eb eb', (agree, counted, omega arith, omega arith))
run-Paired (unregister fd ∷ l) n s t room paired =
    run-Paired l n (EventLoop.event_loop_unregister_fd fd s)
      (Partitioned.event_loop_unregister_fd fd t) room (unregister-Paired fd n s t paired)
run-Paired (compact ∷ l) n s t room paired =
    run-Paired l n (EventLoop.event_loop_batch_unregister s) (recount (batch_all poll_partition t))
      room (compact-Paired n s t paired)

-- From empty tables on, any sequence of registrations, removals and compactions with at most 2500
-- registrations runs through in both event loops, each descriptor then has as many live entries in
-- the one as in the other, and the total of the partitions is the number of their entries.
pub part_run-poll_run :
    (ops : List Op) (s : EventLoop) (t : Partitions)
    → s.internal_nfds ≡ 0
    → registrations ops ≤ max_poll_fd_per_partition
    → (a : EventLoop) × (b : Partitions) × (poll_run ops s ≡ some a)
      × (part_run ops (Partitioned.event_loop_module_init t) ≡ some b)
      × Agree a b
      × IsCounted b
unfolding Partitioned.event_loop_module_init total_nfds count_live
part_run-poll_run ops s t empty room =
    let u : Partitions = Partitioned.event_loop_module_init t in
    let agree : Agree s u = λ g.
      let below : ltb (part_of g) poll_partition ≡ true = ltb-true _ _ (omega arith) in
      ap (λ (k : ℕ). count_live (has_fd g) s k) empty ∙ rw below refl in
    let (a, b, ea, eb, (same, counted, fits, total)) =
      run-Paired ops 0 s u (omega arith) (agree, refl, omega arith, omega arith) in
    (a, b, ea, eb, same, counted)
