-- ===== src/Quitall/Chain.antt =====
-- The processes of a star with the packets between them: how a command that is given to the master
-- reaches the end of the chain.
use nginz.Prelude.{
  ℕ, zero, suc, ◌+◌, ◌<◌, ◌≡◌, refl, Bool, true, false, Option, none, some, List, [], ◌∷◌, ◌++◌,
  arith, ◌==◌, ==_refl, ==_of_ne, ◌>>=◌, Array, update, find_first, find_first_at,
}
use nginz.Fiber
use nginz.Pipeline.{max_process_count, Pipeline}
use nginz.Pipeline.Lookup.{IsStar, IsFull, pp_next_nid_lem, pp_next_nid_last, pp_send_lem}
use nginz.Quitall.{
  Command, softquitall, quitall, Packet, Answer, Process, shake_soft_quitall_command,
  shake_quitall_command, propagate, call_command,
}

-- The processes by node, and the packets that were sent and not read, the oldest first, each with
-- the descriptor that it was written to.
pub record System : Type 0 where
  pub processes : Array Process
  pub mail : List (ℕ × Packet)

-- sendmsg(2) on a socket pair.
abbrev pub post : ℕ → Packet → List (ℕ × Packet) → Bool × List (ℕ × Packet)
post fd packet mail = (true, mail ++ (fd, packet) ∷ [])

module _ (e fd : ℕ → ℕ) where
  after_call : ℕ → System → Option (Answer × (Process × List (ℕ × Packet))) → Option System
  after_call k s none = none
  after_call k s (some (answer, (p, mail))) =
      some (record { processes = update s.processes k p; mail = mail })

  -- The command is called in the process of node `k`.
  unfoldable pub give : Command → ℕ → System → Option System
  unfolding after_call
  give command k s = after_call k s (call_command post (e k) command (s.processes k, s.mail))

  unfoldable pub deliver_to : Packet → System → Option ℕ → Option System
  unfolding give
  deliver_to packet s none = none
  deliver_to packet s (some k) = give packet.command k s

  -- The oldest packet is read by the process whose pipe it was written to.
  unfoldable pub deliver : System → Option System
  unfolding deliver_to
  deliver s = elim (s.mail) [
    | [] ↦ some s
    | (d, packet) ∷ rest ↦
        deliver_to packet (record s { mail = rest }) (find_first (λ k. fd k == d) max_process_count)
  ]

  unfoldable pub deliver_all : ℕ → System → Option System
  deliver_all zero s = some s
  deliver_all (suc n) s = deliver s >>= deliver_all n

  -- Process `k` has read the mail of the master, and writes to the pipes of the nodes.
  abbrev pub IsWired : System → Type 0
  IsWired s =
      (k : ℕ)
      → k < max_process_count
      → ((s.processes k).pipeline.mynode ≡ some k)
        × IsFull e (s.processes k).pipeline
        × ((i : ℕ) → i < max_process_count → ((s.processes k).pipeline.nodes i).fd0 ≡ fd i)

  abbrev pub IsDistinct : Type 0
  IsDistinct = (i j : ℕ) → i < max_process_count → j < max_process_count → fd i ≡ fd j → i ≡ j

-- What a process looks like once it has taken the command, and where it takes it at all.
abbrev pub taken : Command → Process → Process
taken softquitall p = record p { soft_quitall = true }
taken quitall p = record p { fibers = record p.fibers { internal_quit = true } }

abbrev pub IsReady : Command → Process → Type 0
IsReady softquitall p = p.soft_quitall ≡ false
IsReady quitall p = p.soft_quitall ≡ true

module _ (e fd : ℕ → ℕ) (star : IsStar e) (distinct : IsDistinct e fd) where
  pub find_fd :
      (k : ℕ) → k < max_process_count → find_first (λ i. fd i == fd k) max_process_count ≡ some k
  find_fd k h =
      find_first_at (λ i. fd i == fd k) max_process_count k h (==_refl (fd k))
        (λ i l.
          ==_of_ne (fd i) (fd k)
            (λ same. absurd (omega (arith, distinct i k (omega arith) h same))))

  pub give_lem :
      (command : Command) (k : ℕ) (s : System)
      → k + 1 < max_process_count
      → IsWired e fd s
      → s.mail ≡ []
      → IsReady command (s.processes k)
      → give e fd command k s
        ≡ some (record {
          processes = update s.processes k (taken command (s.processes k));
          mail = (fd (k + 1), record { pid = e k; command = command }) ∷ [];
        })
  unfolding give after_call call_command shake_soft_quitall_command shake_quitall_command propagate
      Fiber.fiber_quit
  give_lem softquitall k s h wired none_left go =
      let (me, full, fds) = wired k (omega arith) in
      let p : Pipeline = (s.processes k).pipeline in
      rw
        (
          go,
          none_left,
          pp_next_nid_lem e k p h me full,
          pp_send_lem post e (k + 1) _ p [] star h full,
          fds (k + 1) h,
        )
        refl
  give_lem quitall k s h wired none_left go =
      let (me, full, fds) = wired k (omega arith) in
      let p : Pipeline = (s.processes k).pipeline in
      rw
        (
          go,
          none_left,
          pp_next_nid_lem e k p h me full,
          pp_send_lem post e (k + 1) _ p [] star h full,
          fds (k + 1) h,
        )
        refl

  pub give_last :
      (command : Command) (s : System)
      → IsWired e fd s
      → s.mail ≡ []
      → IsReady command (s.processes 5)
      → give e fd command 5 s
        ≡ some
            (record { processes = update s.processes 5 (taken command (s.processes 5)); mail = [] })
  unfolding give after_call call_command shake_soft_quitall_command shake_quitall_command propagate
      Fiber.fiber_quit
  give_last softquitall s wired none_left go =
      let (me, full, fds) = wired 5 (omega arith) in
      rw (go, none_left, pp_next_nid_last (s.processes 5).pipeline me) refl
  give_last quitall s wired none_left go =
      let (me, full, fds) = wired 5 (omega arith) in
      rw (go, none_left, pp_next_nid_last (s.processes 5).pipeline me) refl
