-- ===== src/EventLoop/Compact.antt =====
-- The batch removal of the unregistered entries.
use nginz.Prelude.{
  ℕ, zero, suc, ◌+◌, ◌-◌, ◌≤◌, ◌<◌, ◌≡◌, refl, sym, ap, ◌∙◌, ◌≢◌, inl, inr, true, false, arith, ltb,
  ◌==◌, if◌then◌else◌, ==_refl, ==_of_ne, Bool-cases, Array,
}
use native.Mathlib.Decide.{dec_lt, ℕ_discrete}
use nginz.EventLoop.{
  PollFd, EventLoop, is_live, trim, copy_entry, sweep, event_loop_batch_unregister,
}
use nginz.EventLoop.Table.{Test, weight, count_live, count_live-at, count_live-congr, live}

trim-le : (fds : Array PollFd) (n : ℕ) → trim fds n ≤ n
unfolding trim
trim-le fds zero = omega arith
trim-le fds (suc last) = ground (arith, trim-le fds last)

trim_live : (fds : Array PollFd) (n k : ℕ) → trim fds n ≡ suc k → is_live (fds k) ≡ true
unfolding trim
trim_live fds zero k e = absurd (omega arith)
trim_live fds (suc last) k e = ground (arith, trim_live fds last k)

count_live-trim :
    (p : Test) (s : EventLoop) (n : ℕ) → count_live p s (trim s.internal_fds n) ≡ count_live p s n
unfolding trim count_live
count_live-trim p s zero = refl
count_live-trim p s (suc last) = elim (Bool-cases (is_live (s.internal_fds last))) [
  | inl yes_live ↦
      let e : trim s.internal_fds (suc last) ≡ suc last = rw yes_live refl in ap (count_live p s) e
  | inr dead ↦
      let e : trim s.internal_fds (suc last) ≡ trim s.internal_fds last = rw dead refl in
      let w : weight p s last ≡ 0 = rw dead refl in
      ap (count_live p s) e ∙ omega (arith, count_live-trim p s last)
]

weight-copy_entry :
    (p : Test) (s : EventLoop) (i last k : ℕ)
    → weight p (copy_entry i last s) k ≡ (if i == k then weight p s last else weight p s k)
unfolding copy_entry
weight-copy_entry p s i last k = elim (Bool-cases (i == k)) [
  | inl e ↦ rw e refl
  | inr ne ↦ rw ne refl
]

-- A dead entry that is overwritten by the last one: the table is one shorter, and counts the same.
count_live-copy_entry :
    (p : Test) (s : EventLoop) (i last : ℕ)
    → i < last
    → is_live (s.internal_fds i) ≡ false
    → count_live p (copy_entry i last s) last ≡ count_live p s (suc last)
unfolding count_live
count_live-copy_entry p s i last h dead =
    let t = copy_entry i last s in
    let here : (weight p t i ≡ weight p s last) =
      weight-copy_entry p s i last i ∙ rw (==_refl i) refl in
    let none_here : weight p s i ≡ 0 = rw dead refl in
    let rest : ((k : ℕ) → k ≢ i → weight p t k ≡ weight p s k) =
      λ k ne. weight-copy_entry p s i last k ∙ rw (==_of_ne i k (λ e. ne (sym e))) refl in
    omega (arith, count_live-at p t s last i h rest)

-- The loop's result, for a table `s` whose first `n` entries are looked at.
abbrev IsSwept : Test → EventLoop → ℕ → EventLoop × ℕ → Type 0
IsSwept p s n r =
    (count_live p r.0 r.1 ≡ count_live p s n)
    × ((j : ℕ) → j < r.1 → is_live (r.0.internal_fds j) ≡ true)
    × (r.1 ≤ n)

-- What the loop keeps: the entries below `i` are live, and so is the last one.
abbrev Progress : ℕ → ℕ → EventLoop → Type 0
Progress i n s =
    ((j : ℕ) → j < i → is_live (s.internal_fds j) ≡ true)
    × ((k : ℕ) → n ≡ suc k → is_live (s.internal_fds k) ≡ true)

copy_entry-Progress :
    (i last : ℕ) (s : EventLoop)
    → i < last
    → Progress i (suc last) s
    → Progress (i + 1) (trim (copy_entry i last s).internal_fds last) (copy_entry i last s)
copy_entry-Progress i last s h inv = (
  λ j below.
      unfold copy_entry in
      elim (ℕ_discrete i j) [
        | yes e ↦ let t : (i == j) ≡ true = ground arith in rw t (inv.1 last refl)
        | no ne ↦ rw (==_of_ne i j ne) (inv.0 j (omega arith))
      ],
  λ k e. trim_live (copy_entry i last s).internal_fds last k e,
)

sweep-IsSwept :
    (p : Test) (rounds i n : ℕ) (s : EventLoop)
    → n ≤ i + rounds
    → Progress i n s
    → IsSwept p s n (sweep rounds i n s)
unfolding sweep
sweep-IsSwept p zero i n s fuel inv = (refl, λ j h. inv.0 j (omega arith), omega arith)
sweep-IsSwept p (suc rounds) i n s fuel inv = elim (dec_lt (i + 1) n) [
  | no stop ↦
      let t : ltb (i + 1) n ≡ false = ground arith in
      rw t (
        refl,
        λ j h. elim (dec_lt j i) [ yes below ↦ inv.0 j below | no at_i ↦ inv.1 j (omega arith) ],
        omega arith,
      )
  | yes go ↦
      let t : ltb (i + 1) n ≡ true = ground arith in
      elim (Bool-cases (is_live (s.internal_fds i))) [
        | inl keep ↦
            rw (t, keep)
              (sweep-IsSwept p rounds (i + 1) n s (omega arith) (
                λ j h. elim (dec_lt j i) [
                  | yes below ↦ inv.0 j below
                  | no at_i ↦ let e : i ≡ j = omega arith in rw e at keep
                ],
                inv.1,
              ))
        | inr dead ↦
            let last : ℕ = n - 1 in
            let e : n ≡ suc last = omega arith in
            let moved : EventLoop = copy_entry i last s in
            let m : ℕ = trim moved.internal_fds last in
            let shorter : m ≤ last = trim-le moved.internal_fds last in
            let (same, all, le) =
              sweep-IsSwept p rounds (i + 1) m moved (omega arith)
                (copy_entry-Progress i last s (omega arith) (inv.0, λ k e'. inv.1 k (e ∙ e'))) in
            rw (t, dead)
              (
                same
                    ∙ count_live-trim p moved last
                    ∙ count_live-copy_entry p s i last (omega arith) dead
                    ∙ ap (count_live p s) (sym e),
                all,
                omega arith,
              )
      ]
]

batch_swept :
    (s : EventLoop) (p : Test)
    → (live p (event_loop_batch_unregister s) ≡ live p s)
      × ((j : ℕ)
          → j < (event_loop_batch_unregister s).internal_nfds
          → is_live ((event_loop_batch_unregister s).internal_fds j) ≡ true)
      × ((event_loop_batch_unregister s).internal_nfds ≤ s.internal_nfds)
unfolding event_loop_batch_unregister
batch_swept s p =
    let all : ℕ = s.internal_nfds in
    let n : ℕ = trim s.internal_fds all in
    let bound : n ≤ all = trim-le s.internal_fds all in
    let r : EventLoop × ℕ = sweep all 0 n s in
    let (same, lives, le) =
      sweep-IsSwept p all 0 n s (omega arith)
        (λ j h. absurd (omega arith), λ k e. trim_live s.internal_fds all k e) in
    (
      count_live-congr p (record r.0 { internal_nfds = r.1 }) r.0 r.1 (λ i h. refl)
          ∙ same
          ∙ count_live-trim p s all,
      lives,
      omega arith,
    )

-- The batch removal keeps each live registration, entry and callback, as often as it stood in the
-- table, whatever order it leaves them in; what it leaves is live, and no longer than before.
pub event_loop_batch_unregister_lem :
    (s : EventLoop)
    → ((p : Test) → live p (event_loop_batch_unregister s) ≡ live p s)
      × ((j : ℕ)
          → j < (event_loop_batch_unregister s).internal_nfds
          → is_live ((event_loop_batch_unregister s).internal_fds j) ≡ true)
      × ((event_loop_batch_unregister s).internal_nfds ≤ s.internal_nfds)
event_loop_batch_unregister_lem s =
    (λ p. (batch_swept s p).0, (batch_swept s (λ e c. true)).1, (batch_swept s (λ e c. true)).2)
