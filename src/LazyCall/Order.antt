-- ===== src/LazyCall/Order.antt =====
-- The order of the calls that were put off.
use nginz.Prelude.{
  ℕ, zero, suc, ◌+◌, ◌≤◌, ◌<◌, ◌≡◌, refl, ap, ◌∙◌, some, List, [], ◌∷◌, ◌++◌, arith, update,
}
use mathlib.Core.List.{append-nil, append_assoc}
use mathlib.Core.Path.{subst}
use native.Mathlib.Numerals.{add-one}
use nginz.Prelude.{Option, none, inl, inr, Option-cases, ==_of_ne}
use nginz.LazyCall.{
  Lazy, lazy_call, run_stack, run_cleanup, after_stack, lazy_call_step, lazy_stack_size,
}

-- A function that notes its call, and changes none of the variables of the file.
abbrev pub note : ℕ → ℕ → Lazy × List (ℕ × ℕ) → Lazy × List (ℕ × ℕ)
note f x (s, log) = (s, log ++ (f, x) ∷ [])

abbrev pub note_unref : ℕ → Lazy × List (ℕ × ℕ) → Lazy × List (ℕ × ℕ)
note_unref o s = s

-- The calls on the stack below `n`, the last one first.
abbrev pub pending : Lazy → ℕ → List (ℕ × ℕ)
pending s zero = []
pending s (suc n) = (s.lazy_stack n, s.lazy_stack_data n) ∷ pending s n

run_stack_log :
    (n : ℕ) (s : Lazy) (log : List (ℕ × ℕ))
    → run_stack note note_unref n (s, log) ≡ (s, log ++ pending s n)
unfolding run_stack
run_stack_log zero s log = rw append-nil refl
run_stack_log (suc n) s log = run_stack_log n s _ ∙ rw append_assoc refl

run_cleanup_quiet : (n : ℕ) (s : Lazy × List (ℕ × ℕ)) → run_cleanup note note_unref n s ≡ s
unfolding run_cleanup
run_cleanup_quiet zero s = refl
run_cleanup_quiet (suc n) s = run_cleanup_quiet n s

-- A step makes every pending call once, the last one that was put off first, and leaves nothing
-- pending, if the functions put off nothing themselves.
pub lazy_call_step_order :
    (s : Lazy) (log : List (ℕ × ℕ))
    → ((lazy_call_step note note_unref (s, log)).1 ≡ log ++ pending s s.lazy_stack_count)
      × ((lazy_call_step note note_unref (s, log)).0.lazy_stack_count ≡ 0)
      × ((lazy_call_step note note_unref (s, log)).0.lazy_cleanup_count ≡ 0)
unfolding lazy_call_step
lazy_call_step_order s log =
    rw (run_stack_log s.lazy_stack_count s log)
      (rw (run_cleanup_quiet s.lazy_cleanup_count) (refl, refl, refl))

-- A function that may put calls off: they come on top of those that are there.
abbrev pub PutsOff : (ℕ → ℕ → Lazy → Lazy) → Type 0
PutsOff puts =
    (f x : ℕ) (s : Lazy)
    → (s.lazy_stack_count ≤ (puts f x s).lazy_stack_count)
      × ((i : ℕ)
          → i < s.lazy_stack_count
          → ((puts f x s).lazy_stack i ≡ s.lazy_stack i)
            × ((puts f x s).lazy_stack_data i ≡ s.lazy_stack_data i))

-- It notes its call, and puts off what it likes.
abbrev pub note_and : (ℕ → ℕ → Lazy → Lazy) → ℕ → ℕ → Lazy × List (ℕ × ℕ) → Lazy × List (ℕ × ℕ)
note_and puts f x (s, log) = (puts f x s, log ++ (f, x) ∷ [])

-- What releases an object may change the queue of the objects.
abbrev pub release_by : (ℕ → Lazy → Lazy) → ℕ → Lazy × List (ℕ × ℕ) → Lazy × List (ℕ × ℕ)
release_by release o (s, log) = (release o s, log)

pending-congr :
    (n : ℕ) (s t : Lazy)
    → ((i : ℕ)
        → i < n
        → (t.lazy_stack i ≡ s.lazy_stack i) × (t.lazy_stack_data i ≡ s.lazy_stack_data i))
    → pending t n ≡ pending s n
pending-congr zero s t h = refl
pending-congr (suc n) s t h =
    let (f, x) = h n (omega arith) in rw (f, x, pending-congr n s t (λ i l. h i (omega arith))) refl

module _ (puts : ℕ → ℕ → Lazy → Lazy) (release : ℕ → Lazy → Lazy) (off : PutsOff puts) where
  run_stack-PutsOff :
      (n : ℕ) (s : Lazy) (log : List (ℕ × ℕ))
      → n ≤ s.lazy_stack_count
      → (run_stack (note_and puts) (release_by release) n (s, log)).1 ≡ log ++ pending s n
  unfolding run_stack
  run_stack-PutsOff zero s log h = rw append-nil refl
  run_stack-PutsOff (suc n) s log h =
      let f = s.lazy_stack n in
      let x = s.lazy_stack_data n in
      let (more, kept) = off f x s in
      run_stack-PutsOff n (puts f x s) (log ++ (f, x) ∷ []) (omega (arith, more))
      ∙ rw (append_assoc, pending-congr n s (puts f x s) (λ i l. kept i (omega arith))) refl

  run_cleanup_keeps :
      ((o : ℕ) (s : Lazy) → (release o s).lazy_stack_count ≡ s.lazy_stack_count)
      → (n : ℕ) (s : Lazy) (log : List (ℕ × ℕ))
      → let t = run_cleanup (note_and puts) (release_by release) n (s, log) in
        (t.0.lazy_stack_count ≡ s.lazy_stack_count) × (t.1 ≡ log)
  unfolding run_cleanup
  run_cleanup_keeps keeps zero s log = (refl, refl)
  run_cleanup_keeps keeps (suc n) s log =
      let o = s.lazy_cleanup_objects n in
      let (count, same) = run_cleanup_keeps keeps n (release o s) log in (count ∙ keeps o s, same)

  -- Where every function may put calls off, and no clean-up does, a step makes exactly the calls
  -- that were pending before it, the last one that was put off first, and nothing is pending
  -- behind it: what a function puts off during the step is lost.
  pub lazy_call_step_drops :
      ((o : ℕ) (s : Lazy) → (release o s).lazy_stack_count ≡ s.lazy_stack_count)
      → (s : Lazy) (log : List (ℕ × ℕ))
      → let t = lazy_call_step (note_and puts) (release_by release) (s, log) in
        (t.1 ≡ log ++ pending s s.lazy_stack_count) × (pending t.0 t.0.lazy_stack_count ≡ [])
  unfolding lazy_call_step after_stack
  lazy_call_step_drops keeps s log =
      let t = after_stack (note_and puts) (release_by release) (s, log) in
      let (count, same) = run_cleanup_keeps keeps t.0.lazy_cleanup_count t.0 t.1 in
      (
        same ∙ run_stack-PutsOff s.lazy_stack_count s log (omega arith),
        ap (λ (n : ℕ). pending (lazy_call_step (note_and puts) (release_by release) (s, log)).0 n)
            count,
      )

pending_below :
    (n : ℕ) (s : Lazy) (k f x : ℕ)
    → n ≤ k
    → pending
        (record s {
          lazy_stack = update s.lazy_stack k f;
          lazy_stack_data = update s.lazy_stack_data k x;
          lazy_stack_count = k + 1;
        })
        n
      ≡ pending s n
pending_below zero s k f x h = refl
pending_below (suc n) s k f x h = ground (arith, pending_below n s k f x)

abbrev pushed : ℕ → ℕ → Lazy → Lazy
pushed f x s = record s {
  lazy_stack = update s.lazy_stack s.lazy_stack_count f;
  lazy_stack_data = update s.lazy_stack_data s.lazy_stack_count x;
  lazy_stack_count = s.lazy_stack_count + 1;
}

lazy_call_eq :
    (f x : ℕ) (s t : Lazy)
    → lazy_call (some f) x s ≡ some t
    → (s.lazy_stack_count < lazy_stack_size) × (pushed f x s ≡ t)
unfolding lazy_call
lazy_call_eq f x s t e = ground arith

pending-pushed :
    (f x : ℕ) (s : Lazy) (k : ℕ)
    → k ≡ s.lazy_stack_count
    → pending (pushed f x s) (suc k) ≡ (f, x) ∷ pending s s.lazy_stack_count
pending-pushed f x s k h =
    rw h (ground (arith, pending_below s.lazy_stack_count s s.lazy_stack_count f x))

-- A call that is put off stands on top of those that were, and the stack stays within its array.
pub lazy_call-pending :
    (f x : ℕ) (s t : Lazy)
    → lazy_call (some f) x s ≡ some t
    → (t.lazy_stack_count ≤ lazy_stack_size)
      × (pending t t.lazy_stack_count ≡ (f, x) ∷ pending s s.lazy_stack_count)
lazy_call-pending f x s t e =
    let (fits, same) = lazy_call_eq f x s t e in
    subst
      (λ (u : Lazy).
        (u.lazy_stack_count ≤ lazy_stack_size)
        × (pending u u.lazy_stack_count ≡ (f, x) ∷ pending s s.lazy_stack_count))
      same
      (
        omega arith,
        ap (λ (n : ℕ). pending (pushed f x s) n) (add-one s.lazy_stack_count)
            ∙ pending-pushed f x s s.lazy_stack_count refl,
      )

abbrev pub or_same : Lazy → Option Lazy → Lazy
or_same s none = s
or_same s (some t) = t

-- A function that puts one call off, if there is room.
abbrev pub put_one : (ℕ → ℕ → ℕ × ℕ) → ℕ → ℕ → Lazy → Lazy
put_one next f x s = or_same s (lazy_call (some (next f x).0) (next f x).1 s)

pub put_one-PutsOff : (next : ℕ → ℕ → ℕ × ℕ) → PutsOff (put_one next)
put_one-PutsOff next f x s = elim (Option-cases (lazy_call (some (next f x).0) (next f x).1 s)) [
  | inl full ↦ rw full (omega arith, λ i l. (refl, refl))
  | inr (t, e) ↦
      let (fits, same) = lazy_call_eq (next f x).0 (next f x).1 s t e in
      rw (e, ← same)
        (
          omega arith,
          λ i l. let ne = ==_of_ne s.lazy_stack_count i (omega arith) in (rw ne refl, rw ne refl),
        )
]
