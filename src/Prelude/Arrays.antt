-- ===== src/Prelude/Arrays.antt =====
-- A static C array: what its cells hold. The code's bounds are stated with the loops and in
-- the invariants.
use Prim.Native.Nat.{ℕ, zero, suc, ◌+◌, ◌≤◌, ◌<◌}
use mathlib.Core.Path.{◌≡◌, ap}
use mathlib.Core.Bool.{Bool, true, false}
use mathlib.Core.Option.{Option, none, some}
use native.Mathlib.Omega.{arith}
use native.Mathlib.Decide.{dec_lt}
use nginz.Prelude.Tests.{if◌then◌else◌, ◌==◌}

abbrev pub Array {ℓ} : Type ℓ → Type ℓ
Array A = ℕ → A

-- a[i] = v
abbrev pub update {ℓ} : {A : Type ℓ} → Array A → ℕ → A → Array A
update a i v j = if i == j then v else a j

-- for(k = i; k < i + n; k++) { if(!test) continue; ...; return; }: the cell where it returns.
unfoldable pub find_from : (ℕ → Bool) → ℕ → ℕ → Option ℕ
find_from test zero i = none
find_from test (suc n) i = let rest = find_from test n (i + 1) in if test i then some i else rest

unfoldable pub find_first : (ℕ → Bool) → ℕ → Option ℕ
find_first test n = find_from test n 0

module _ (test : ℕ → Bool) where
  find_from-some :
      (n i j : ℕ) → find_from test n i ≡ some j → (test j ≡ true) × (i ≤ j) × (j < i + n)
  unfolding find_from
  find_from-some zero i j e = cc
  find_from-some (suc n) i j e = ground (arith, find_from-some n (i + 1) j)

  find_from_before : (n i j k : ℕ) → find_from test n i ≡ some j → i ≤ k → k < j → test k ≡ false
  unfolding find_from
  find_from_before zero i j k e lo hi = cc
  find_from_before (suc n) i j k e lo hi = ground (arith, find_from_before n (i + 1) j k)

  find_from-none : (n i k : ℕ) → find_from test n i ≡ none → i ≤ k → k < i + n → test k ≡ false
  unfolding find_from
  find_from-none zero i k e lo hi = absurd (omega arith)
  find_from-none (suc n) i k e lo hi = ground (arith, find_from-none n (i + 1) k)

  -- What the search returns passes the test and is in range.
  pub find_first-some : (n j : ℕ) → find_first test n ≡ some j → (test j ≡ true) × (j < n)
  unfolding find_first
  find_first-some n j e = ground (arith, find_from-some n 0 j)

  -- It is the first such cell.
  pub find_first_before : (n j k : ℕ) → find_first test n ≡ some j → k < j → test k ≡ false
  unfolding find_first
  find_first_before n j k e h = find_from_before n 0 j k e (omega arith) h

  -- A search that ends with no cell has seen every cell fail the test.
  pub find_first-none : (n k : ℕ) → find_first test n ≡ none → k < n → test k ≡ false
  unfolding find_first
  find_first-none n k e h = find_from-none n 0 k e (omega arith) (omega arith)

  find_from_at :
      (n i j : ℕ)
      → i ≤ j
      → j < i + n
      → test j ≡ true
      → ((k : ℕ) → i ≤ k → k < j → test k ≡ false)
      → find_from test n i ≡ some j
  unfolding find_from
  find_from_at zero i j lo hi t before = absurd (omega arith)
  find_from_at (suc n) i j lo hi t before = elim (dec_lt i j) [
    | yes h ↦
        rw (before i (omega arith) h) (
          find_from_at n (i + 1) j (omega arith) (omega arith) t
            (λ k l m. before k (omega arith) m))
    | no h ↦
        let e : i ≡ j = omega arith in
        let t' : test i ≡ true = rw e t in rw t' (ap (λ (k : ℕ). some k) e)
  ]

  -- The search finds the first cell that passes.
  pub find_first_at :
      (n j : ℕ)
      → j < n
      → test j ≡ true
      → ((k : ℕ) → k < j → test k ≡ false)
      → find_first test n ≡ some j
  unfolding find_first
  find_first_at n j h t before =
      find_from_at n 0 j (omega arith) (omega arith) t (λ k l m. before k m)
