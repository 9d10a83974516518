-- ===== src/Partitioned/Entries.antt =====
-- How the operations change the entries of a descriptor in one table, and the total.
use nginz.Prelude.{
  ℕ, zero, suc, ◌+◌, ◌-◌, ◌≤◌, ◌<◌, ◌≡◌, refl, sym, ap, ◌∙◌, inl, inr, true, false, not, ◌&&◌,
  arith, ltb, ◌==◌, if◌then◌else◌, ==_refl, ==_of_ne, Bool-cases, Option-cases, Array, update,
  find_first,
}
use native.Mathlib.Decide.{ℕ_discrete}
use nginz.EventLoop
use nginz.EventLoop.{EventLoop, is_live}
use nginz.EventLoop.Table.{
  Test, weight, count_live, count_live-congr, live, event_loop_unregister_fd-live,
}
use nginz.EventLoop.Compact.{event_loop_batch_unregister_lem}
use nginz.Partitioned.{Partitions, add_entry, event_loop_batch_unregister, total_nfds, batch_all}

abbrev pub has_fd : ℕ → Test
has_fd g p c = p.fd == g

-- The live entries of a descriptor.
abbrev pub live_of : ℕ → EventLoop → ℕ
live_of g s = live (has_fd g) s

pub add_entry-live :
    (fd c x events g : ℕ) (s : EventLoop)
    → live_of g (add_entry fd c x events s)
      ≡ live_of g s + (if not (events == 0) && fd == g then 1 else 0)
unfolding count_live
add_entry-live fd c x events g s =
    let t = add_entry fd c x events s in
    let n = s.internal_nfds in
    let before : count_live (has_fd g) t n ≡ count_live (has_fd g) s n =
      count_live-congr (has_fd g) t s n (λ i h. rw (==_of_ne n i (omega arith)) refl) in
    let e : n + 1 ≡ suc n = omega arith in
    ap (λ (k : ℕ). count_live (has_fd g) t k) e ∙ rw (before, ==_refl n) refl

weight_none :
    (g : ℕ) (s : EventLoop) (k : ℕ)
    → ((s.internal_fds k).fd == g && is_live (s.internal_fds k)) ≡ false
    → weight (has_fd g) s k ≡ 0
weight_none g s k e = ground arith

count_live-zero :
    (g : ℕ) (s : EventLoop) (n : ℕ)
    → ((k : ℕ) → k < n → weight (has_fd g) s k ≡ 0)
    → count_live (has_fd g) s n ≡ 0
unfolding count_live
count_live-zero g s zero h = refl
count_live-zero g s (suc n) h = omega (arith, h n, count_live-zero g s n (λ k l. h k (omega arith)))

pub unregister-live :
    (fd g : ℕ) (s : EventLoop)
    → live_of g (EventLoop.event_loop_unregister_fd fd s)
      ≡ (if fd == g then live_of g s - 1 else live_of g s)
unregister-live fd g s = elim (event_loop_unregister_fd-live fd s) [
  | inl (k, h, same, alive, rest) ↦ elim (ℕ_discrete fd g) [
    | yes e ↦
        let w : weight (has_fd g) s k ≡ 1 = rw (alive, same, e, ==_refl g) refl in
        let t : (fd == g) ≡ true = ground arith in rw t (omega (arith, w, rest (has_fd g)))
    | no ne ↦
        let w : weight (has_fd g) s k ≡ 0 = rw (alive, same, ==_of_ne fd g ne) refl in
        rw (==_of_ne fd g ne) (omega (arith, w, rest (has_fd g)))
  ]
  | inr (same, dead) ↦ elim (ℕ_discrete fd g) [
    | yes e ↦
        let z : live_of g s ≡ 0 =
          count_live-zero g s s.internal_nfds (λ k h. weight_none g s k (rw (sym e) (dead k h))) in
        let t : (fd == g) ≡ true = ground arith in rw (same, t) (omega (arith, z))
    | no ne ↦ rw (same, ==_of_ne fd g ne) refl
  ]
]

pub unregister-nfds :
    (fd : ℕ) (s : EventLoop)
    → (EventLoop.event_loop_unregister_fd fd s).internal_nfds ≡ s.internal_nfds
unfolding EventLoop.event_loop_unregister_fd EventLoop.clear_events
unregister-nfds fd s =
    elim (Option-cases (
      find_first (λ i. (s.internal_fds i).fd == fd && is_live (s.internal_fds i))
        s.internal_nfds)) [ inl e ↦ rw e refl | inr (k, e) ↦ rw e refl ]

-- The tables below `n` are made compact, the others stay.
pub batch_all-edata :
    (n part : ℕ) (s : Partitions)
    → (batch_all n s).edata part
      ≡ (if ltb part n then EventLoop.event_loop_batch_unregister (s.edata part) else s.edata part)
unfolding batch_all event_loop_batch_unregister
batch_all-edata zero part s = let t : ltb part 0 ≡ false = ground arith in rw t refl
batch_all-edata (suc n) part s = elim (ℕ_discrete n part) [
  | yes e ↦
      let t : (n == part) ≡ true = ground arith in
      let below : ltb part (suc n) ≡ true = ground arith in
      let here : ltb n n ≡ false = ground arith in
      rw (t, below, batch_all-edata n n s, here)
        (ap (λ (k : ℕ). EventLoop.event_loop_batch_unregister (s.edata k)) e)
  | no ne ↦
      let t : (n == part) ≡ false = ground arith in
      let b : (ltb part (suc n) ≡ ltb part n) = ground arith in rw (t, b) (batch_all-edata n part s)
]

pub batch_all-live :
    (n g part : ℕ) (s : Partitions)
    → live_of g ((batch_all n s).edata part) ≡ live_of g (s.edata part)
batch_all-live n g part s = elim (Bool-cases (ltb part n)) [
  | inl t ↦
      rw (batch_all-edata n part s, t)
        ((event_loop_batch_unregister_lem (s.edata part)).0 (has_fd g))
  | inr t ↦ rw (batch_all-edata n part s, t) refl
]

batch_all-nfds :
    (n part : ℕ) (s : Partitions)
    → ((batch_all n s).edata part).internal_nfds ≤ (s.edata part).internal_nfds
batch_all-nfds n part s = elim (Bool-cases (ltb part n)) [
  | inl t ↦ rw (batch_all-edata n part s, t) ((event_loop_batch_unregister_lem (s.edata part)).2)
  | inr t ↦ rw (batch_all-edata n part s, t) (omega arith)
]

total_nfds_mono :
    (n : ℕ) (a b : Array EventLoop)
    → ((part : ℕ) → (a part).internal_nfds ≤ (b part).internal_nfds)
    → total_nfds n a ≤ total_nfds n b
unfolding total_nfds
total_nfds_mono zero a b h = omega arith
total_nfds_mono (suc n) a b h = omega (arith, h n, total_nfds_mono n a b h)

pub total_nfds-batch_all :
    (m n : ℕ) (s : Partitions) → total_nfds m (batch_all n s).edata ≤ total_nfds m s.edata
total_nfds-batch_all m n s =
    total_nfds_mono m (batch_all n s).edata s.edata (λ part. batch_all-nfds n part s)

pub total_nfds-le :
    (n part : ℕ) (a : Array EventLoop) → part < n → (a part).internal_nfds ≤ total_nfds n a
unfolding total_nfds
total_nfds-le zero part a h = absurd (omega arith)
total_nfds-le (suc n) part a h = elim (ℕ_discrete n part) [
  | yes e ↦
      let s : (a n).internal_nfds ≡ (a part).internal_nfds =
        ap (λ (k : ℕ). (a k).internal_nfds) e in
      omega arith
  | no ne ↦ omega (arith, total_nfds-le n part a (omega arith))
]

total_nfds-above :
    (n part : ℕ) (a : Array EventLoop) (pt : EventLoop)
    → n ≤ part
    → total_nfds n (update a part pt) ≡ total_nfds n a
unfolding total_nfds
total_nfds-above zero part a pt h = refl
total_nfds-above (suc n) part a pt h =
    rw (==_of_ne part n (omega arith), total_nfds-above n part a pt (omega arith)) refl

pub total_nfds-update :
    (n part : ℕ) (a : Array EventLoop) (pt : EventLoop)
    → part < n
    → total_nfds n (update a part pt) + (a part).internal_nfds ≡ total_nfds n a + pt.internal_nfds
unfolding total_nfds
total_nfds-update zero part a pt h = absurd (omega arith)
total_nfds-update (suc n) part a pt h = elim (ℕ_discrete part n) [
  | yes e ↦
      let t : (part == n) ≡ true = ground arith in
      let s : (a n).internal_nfds ≡ (a part).internal_nfds =
        ap (λ (k : ℕ). (a k).internal_nfds) (sym e) in
      rw t (omega (arith, s, total_nfds-above n part a pt (omega arith)))
  | no ne ↦ rw (==_of_ne part n ne) (omega (arith, total_nfds-update n part a pt (omega arith)))
]
