-- ===== src/Pipeline/Lookup.antt =====
-- Finding nodes in a full table, and in one that is filled from the front.
use nginz.Prelude.{
  ℕ, ◌+◌, ◌%◌, ◌≤◌, ◌<◌, ◌≡◌, refl, ap, ◌≢◌, inl, inr, Bool, none, ltb-true, some, arith, ◌==◌,
  if◌then◌else◌, ==_refl, eq_of_==, ==_of_ne, Option-cases, find_first, find_first-some,
  find_first_at,
}
use nginz.Pipeline.{
  max_process_count, Pipeline, has_nid, is_mine, nid_after, pp_next_nid, raw_fd_at, pp_get_raw_fd,
  pp_find_node, send_to, pp_send, pp_next_worker_nid,
}

-- The processes of the star, by node.
pub record IsStar (e : ℕ → ℕ) : Type 0 where
  pub nonzero : (i : ℕ) → i < max_process_count → e i ≢ 0
  pub distinct : (i j : ℕ) → i < max_process_count → j < max_process_count → e i ≡ e j → i ≡ j

-- The first `k` nodes are those of `e`, and the others have no process.
abbrev pub IsFilled : (ℕ → ℕ) → ℕ → Pipeline → Type 0
IsFilled e k s =
    ((i : ℕ) → i < k → (s.nodes i).nid ≡ e i)
    × ((i : ℕ) → k ≤ i → i < max_process_count → (s.nodes i).nid ≡ 0)

abbrev pub IsFull : (ℕ → ℕ) → Pipeline → Type 0
IsFull e s = (i : ℕ) → i < max_process_count → (s.nodes i).nid ≡ e i

pub first_free :
    (e : ℕ → ℕ) (k : ℕ) (s : Pipeline)
    → IsStar e
    → IsFilled e k s
    → k < max_process_count
    → find_first (has_nid s 0) max_process_count ≡ some k
first_free e k s star f h =
    find_first_at (has_nid s 0) max_process_count k h (rw (f.1 k (omega arith) h) refl)
      (λ i l. rw (f.0 i l) (==_of_ne (e i) 0 (star.nonzero i (omega arith))))

pub find_nid :
    (e : ℕ → ℕ) (k : ℕ) (s : Pipeline)
    → IsStar e
    → IsFull e s
    → k < max_process_count
    → find_first (has_nid s (e k)) max_process_count ≡ some k
find_nid e k s star full h =
    find_first_at (has_nid s (e k)) max_process_count k h (rw (full k h) (==_refl (e k))) (λ i l.
      rw (full i (omega arith)) (
        ==_of_ne (e i) (e k)
          (λ same. absurd (omega (arith, star.distinct i k (omega arith) h same)))))

-- The node that takes the next connection after that of node `i`: the workers are 1 to 5.
abbrev pub next_worker : ℕ → ℕ
next_worker i = if (i + 1) % max_process_count == 0 then 1 else (i + 1) % max_process_count

-- In a full table of distinct processes the worker after that of node `i` is that of the node
-- behind it, and the first worker after the last one.
pub pp_next_worker_nid_lem :
    (e : ℕ → ℕ) (i : ℕ) (s : Pipeline)
    → IsStar e
    → IsFull e s
    → i < max_process_count
    → pp_next_worker_nid (e i) s ≡ some (e (next_worker i))
unfolding pp_next_worker_nid
pp_next_worker_nid_lem e i s star full h =
    let bound : next_worker i < max_process_count = ground arith in
    rw (find_nid e i s star full h) (ap (λ (n : ℕ). some n) (full (next_worker i) bound))

-- A process that is in no node has no worker after it: the code would read outside of the table.
pub pp_next_worker_nid_missing :
    (nid : ℕ) (s : Pipeline)
    → ((i : ℕ) → i < max_process_count → (s.nodes i).nid ≢ nid)
    → pp_next_worker_nid nid s ≡ none
unfolding pp_next_worker_nid
pp_next_worker_nid_missing nid s missing =
    elim (Option-cases (find_first (has_nid s nid) max_process_count)) [
      | inl e ↦ rw e refl
      | inr (i, e) ↦
          let (p, h) = find_first-some (has_nid s nid) max_process_count i e in
          absurd (missing i h (eq_of_== _ nid p))
    ]

-- Node `k` is followed by node `k + 1`, and the last one by none.
pub pp_next_nid_lem :
    (e : ℕ → ℕ) (k : ℕ) (s : Pipeline)
    → k + 1 < max_process_count
    → s.mynode ≡ some k
    → IsFull e s
    → pp_next_nid s ≡ some (e (k + 1))
unfolding pp_next_nid nid_after
pp_next_nid_lem e k s h me full =
    let found : find_first (is_mine s.mynode) max_process_count ≡ some k = rw me (
      find_first_at (λ i. k == i) max_process_count k (omega arith) (==_refl k)
        (λ i l. ==_of_ne k i (omega arith))) in
    rw (found, ltb-true (k + 1) max_process_count h) (ap (λ (n : ℕ). some n) (full (k + 1) h))

pub pp_next_nid_last : (s : Pipeline) → s.mynode ≡ some 5 → pp_next_nid s ≡ none
unfolding pp_next_nid nid_after
pp_next_nid_last s me =
    let found : find_first (is_mine s.mynode) max_process_count ≡ some 5 = rw me (
      find_first_at (λ i. 5 == i) max_process_count 5 (omega arith) refl
        (λ i l. ==_of_ne 5 i (omega arith))) in
    rw found refl

-- What is sent to a process is written once, to the pipe of its node.
pub pp_send_lem :
    {M W : Type 0} (pp_simple_sendmsg : ℕ → M → W → Bool × W) (e : ℕ → ℕ) (j : ℕ) (pkt : M)
    (s : Pipeline) (w : W)
    → IsStar e
    → j < max_process_count
    → IsFull e s
    → pp_send pp_simple_sendmsg (e j) pkt s w ≡ some (pp_simple_sendmsg (s.nodes j).fd0 pkt w)
unfolding pp_send pp_find_node send_to
pp_send_lem pp_simple_sendmsg e j pkt s w star h full =
    rw (==_of_ne (e j) 0 (star.nonzero j h), find_nid e j s star full h) refl

pub pp_get_raw_fd_lem :
    (e : ℕ → ℕ) (k : ℕ) (s : Pipeline)
    → IsStar e
    → IsFull e s
    → k < max_process_count
    → pp_get_raw_fd (e k) s ≡ some (s.nodes k).raw_fd0
unfolding pp_get_raw_fd raw_fd_at
pp_get_raw_fd_lem e k s star full h = rw (find_nid e k s star full h) refl
