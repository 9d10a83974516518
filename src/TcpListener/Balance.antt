-- ===== src/TcpListener/Balance.antt =====
-- What starting the listeners registers, stopping them takes out.
use nginz.Prelude.{
  ℕ, zero, suc, ◌+◌, ◌≤◌, ◌<◌, ◌≡◌, refl, inl, inr, Option, none, some, arith, ◌==◌, if◌then◌else◌,
  ==_refl, ==_of_ne, Option-cases, Array,
}
use nginz.EventLoop.{EventLoop, event_loop_register_fd, event_loop_unregister_fd}
use nginz.EventLoop.Table.{
  Test, weight, live, count_live, event_loop_register_fd-live, event_loop_unregister_fd-live,
}
use nginz.TcpListener.{TcpListener, stop_one, stop_loop}

-- How many live entries a descriptor has.
abbrev pub live_of : ℕ → EventLoop → ℕ
live_of q s = live (λ f c. f.fd == q) s

-- 1 for the descriptor itself.
abbrev pub one_if : ℕ → ℕ → ℕ
one_if fd q = if fd == q then 1 else 0

-- How often a descriptor stands in front of the first -1.
abbrev pub count_one : ℕ → ℕ → Option ℕ → ℕ
count_one q rest none = 0
count_one q rest (some fd) = one_if fd q + rest

unfoldable pub count_sockets : ℕ → ℕ → ℕ → Array (Option ℕ) → ℕ
count_sockets q zero i sockets = 0
count_sockets q (suc n) i sockets = count_one q (count_sockets q n (i + 1) sockets) (sockets i)

pub count_sockets-some :
    (q n i fd : ℕ) (f : Array (Option ℕ))
    → f i ≡ some fd
    → count_sockets q (suc n) i f ≡ one_if fd q + count_sockets q n (i + 1) f
unfolding count_sockets
count_sockets-some q n i fd f e = rw e refl

one_if_refl : (fd : ℕ) → one_if fd fd ≡ 1
one_if_refl fd = rw (==_refl fd) refl

count_sockets-congr :
    (q n i : ℕ) (f g : Array (Option ℕ))
    → ((j : ℕ) → i ≤ j → f j ≡ g j)
    → count_sockets q n i f ≡ count_sockets q n i g
unfolding count_sockets
count_sockets-congr q zero i f g h = refl
count_sockets-congr q (suc n) i f g h =
    let rest = count_sockets-congr q n (i + 1) f g (λ j l. h j (omega arith)) in
    rw (h i (omega arith), rest) refl

count_live_zero :
    (p : Test) (s : EventLoop) (n : ℕ) → ((k : ℕ) → k < n → weight p s k ≡ 0) → count_live p s n ≡ 0
unfolding count_live
count_live_zero p s zero h = refl
count_live_zero p s (suc n) h =
    omega (arith, h n (omega arith), count_live_zero p s n (λ k l. h k (omega arith)))

pub register_balance :
    (fd c x events q : ℕ) (s t : EventLoop)
    → event_loop_register_fd fd c x events s ≡ some t
    → 0 < events
    → live_of q t ≡ live_of q s + one_if fd q
register_balance fd c x events q s t e pos =
    (event_loop_register_fd-live fd c x events s t (λ f c. f.fd == q) e pos).1

unregister_balance :
    (fd q : ℕ) (s : EventLoop)
    → 1 ≤ live_of fd s
    → live_of q (event_loop_unregister_fd fd s) + one_if fd q ≡ live_of q s
unregister_balance fd q s has = elim (event_loop_unregister_fd-live fd s) [
  | inl (k, h, e, l, taken) ↦
      let one : weight (λ f c. f.fd == q) s k ≡ one_if fd q = rw (l, e) refl in
      rw⁻¹ one (taken (λ f c. f.fd == q))
  | inr (same, nothing) ↦
      let empty : live_of fd s ≡ 0 =
        count_live_zero (λ f c. f.fd == fd) s s.internal_nfds
          (λ k h. let e = nothing k h in ground arith) in
      absurd (omega (arith, empty))
]

pub stop_loop-balance :
    (n i : ℕ) (s : TcpListener)
    → ((q : ℕ) → count_sockets q n i s.tcp_sockets ≤ live_of q s.loop)
    → (q : ℕ)
    → live_of q (stop_loop n i s).loop + count_sockets q n i s.tcp_sockets ≡ live_of q s.loop
unfolding stop_loop count_sockets
stop_loop-balance zero i s h q = omega arith
stop_loop-balance (suc n) i s h q = elim (Option-cases (s.tcp_sockets i)) [
  | inl e ↦ rw e (omega arith)
  | inr (fd, e) ↦
      let s' = stop_one i fd s in
      let counted : (r : ℕ)
          → one_if fd r + count_sockets r n (i + 1) s.tcp_sockets ≤ live_of r s.loop =
        λ r. omega (arith, h r, count_sockets-some r n i fd s.tcp_sockets e) in
      let own : 1 ≤ live_of fd s.loop = omega (arith, counted fd, one_if_refl fd) in
      let same : (r : ℕ)
          → count_sockets r n (i + 1) s'.tcp_sockets ≡ count_sockets r n (i + 1) s.tcp_sockets =
        λ r.
          count_sockets-congr r n (i + 1) s'.tcp_sockets s.tcp_sockets
            (λ j l. rw (==_of_ne i j (omega arith)) refl) in
      let gone = λ (r : ℕ). unregister_balance fd r s.loop own in
      let rest = stop_loop-balance n (i + 1) s' (λ r. omega (arith, same r, gone r, counted r)) q in
      rw e (omega (arith, rest, same q, gone q))
]
