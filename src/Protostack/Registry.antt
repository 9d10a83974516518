-- ===== src/Protostack/Registry.antt =====
-- The registry of protocols as a map in which the first registration of a port stands.
use nginz.Prelude.{
  ℕ, ◌-◌, ◌<◌, ◌≡◌, refl, sym, ◌∙◌, ◌≢◌, inl, inr, Bool, true, false, Option, none, some, arith,
  ◌==◌, if◌then◌else◌, ==_refl, eq_of_==, ==_of_ne, Bool-cases, Option-cases, update, find_first,
  find_first-some, find_first_before, find_first-none, find_first_at,
}
use mathlib.Core.Path.{subst, fun_ext}
use mathlib.Core.Bool.{false≢true}
use native.Mathlib.Decide.{dec_lt, ℕ_discrete}
use nginz.Protostack.{
  max_proto, Protostack, is_null, protostack_init, protostack_get, protostack_set,
}

pub record IsValid (s : Protostack) : Type 0 where
  -- A free place has port 0.
  pub free :
      (i : ℕ)
      → i < max_proto
      → is_null (s.internal_stacks i) ≡ true
      → s.internal_port_for_stacks i ≡ 0
  -- The places are filled from the first on.
  pub prefix :
      (i j : ℕ)
      → i < j
      → j < max_proto
      → is_null (s.internal_stacks i) ≡ true
      → is_null (s.internal_stacks j) ≡ true

pub IsValid-init : IsValid protostack_init
unfolding protostack_init
IsValid-init = record { free = λ i h e. refl; prefix = λ i j h k e. refl }

abbrev pub or_else : Option ℕ → Option ℕ → Option ℕ
or_else none y = y
or_else (some x) y = some x

not_null_or_else : (o p : Option ℕ) → is_null o ≡ false → or_else o p ≡ o
not_null_or_else none p h = cc
not_null_or_else (some x) p h = refl

abbrev has_port : Protostack → ℕ → ℕ → Bool
has_port t port k = t.internal_port_for_stacks k == port

-- `i` is the first free place of the registry `s`, and `t` is `s` with `port` and `x` put there.
module _ (s : Protostack) (v : IsValid s) (i port x : ℕ)
    (at_i : is_null (s.internal_stacks i) ≡ true)
    (below : (k : ℕ) → k < i → is_null (s.internal_stacks k) ≡ false)
    (in_range : i < max_proto) where
  abbrev t : Protostack
  t = record {
    internal_port_for_stacks = update s.internal_port_for_stacks i port;
    internal_stacks = update s.internal_stacks i (some x);
  }

  filled-IsValid : IsValid t
  filled-IsValid = record {
    free = λ k h. elim (ℕ_discrete i k) [
      | yes same ↦ let e : (i == k) ≡ true = ground arith in rw e (λ f. cc)
      | no ne ↦ rw (==_of_ne i k ne) (v.free k h)
    ];
    prefix = λ j k h hk. elim (ℕ_discrete i j) [
      | yes same ↦ let e : (i == j) ≡ true = ground arith in rw e (λ f. cc)
      | no ne ↦ elim (ℕ_discrete i k) [
        | yes same ↦ rw (==_of_ne i j ne, below j (omega arith)) (λ f. cc)
        | no ne' ↦ rw (==_of_ne i j ne, ==_of_ne i k ne') (v.prefix j k h hk)
      ]
    ];
  }

  -- A port other than 0 is not that of a free place.
  busy_at :
      (q k : ℕ)
      → q ≢ 0
      → k < max_proto
      → has_port s q k ≡ true
      → is_null (s.internal_stacks k) ≡ false
  busy_at q k nz h e = elim (Bool-cases (is_null (s.internal_stacks k))) [
    | inl free ↦ absurd (nz (sym (eq_of_== _ q e) ∙ v.free k h free))
    | inr busy ↦ busy
  ]

  other_port : (q : ℕ) → q ≢ 0 → port ≢ q → (k : ℕ) → has_port t q k ≡ has_port s q k
  other_port q nz ne k = elim (ℕ_discrete i k) [
    | yes same ↦
        let e : (i == k) ≡ true = ground arith in
        let z : s.internal_port_for_stacks k ≡ 0 =
          subst (λ (m : ℕ). s.internal_port_for_stacks m ≡ 0) same (v.free i in_range at_i) in
        rw (e, z, ==_of_ne port q ne) (sym (==_of_ne 0 q (λ d. nz (sym d))))
    | no differ ↦ rw (==_of_ne i k differ) refl
  ]

  stack_of : (q j : ℕ) → q ≢ 0 → j < max_proto → has_port s q j ≡ true → i ≢ j
  stack_of q j nz h e same =
      let busy : is_null (s.internal_stacks i) ≡ false =
        subst (λ (m : ℕ). is_null (s.internal_stacks m) ≡ false) (sym same) (busy_at q j nz h e) in
      cc

  get_other : (q : ℕ) → q ≢ 0 → port ≢ q → protostack_get q t ≡ protostack_get q s
  unfolding protostack_get
  get_other q nz ne =
      rw (fun_ext (other_port q nz ne)) (elim (Option-cases (find_first (has_port s q) max_proto)) [
        | inl e ↦ rw e refl
        | inr (j, e) ↦
            let (p, h) = find_first-some (has_port s q) max_proto j e in
            rw (e, ==_of_ne i j (stack_of q j nz h p)) refl
      ])

  -- The port itself: an earlier place that has it is found first.
  get_same : port ≢ 0 → protostack_get port t ≡ or_else (protostack_get port s) (some x)
  unfolding protostack_get
  get_same nz = elim (Option-cases (find_first (has_port s port) max_proto)) [
    | inl e ↦
        let now : find_first (has_port t port) max_proto ≡ some i =
          find_first_at (has_port t port) max_proto i in_range (rw (==_refl i) (==_refl port))
            (λ k l.
              rw (==_of_ne i k (omega arith))
                (find_first-none (has_port s port) max_proto k e (omega arith))) in
        rw (e, now, ==_refl i) refl
    | inr (j, e) ↦
        let (p, h) = find_first-some (has_port s port) max_proto j e in
        let ne : i ≢ j = stack_of port j nz h p in
        let busy : is_null (s.internal_stacks j) ≡ false = busy_at port j nz h p in
        let first : j < i = elim (dec_lt j i) [
          | yes l ↦ l
          | no l ↦ absurd (false≢true (sym busy ∙ v.prefix i j (omega arith) h at_i))
        ] in
        let now : find_first (has_port t port) max_proto ≡ some j =
          find_first_at (has_port t port) max_proto j h (rw (==_of_ne i j ne) p) (λ k l.
            rw (==_of_ne i k (omega arith))
              (find_first_before (has_port s port) max_proto j k e l)) in
        rw (e, now, ==_of_ne i j ne) (sym (not_null_or_else _ (some x) busy))
  ]

  get_filled :
      (q : ℕ)
      → port ≢ 0
      → q ≢ 0
      → protostack_get q t
        ≡ (if port == q then or_else (protostack_get q s) (some x) else protostack_get q s)
  get_filled q nz nzq = elim (ℕ_discrete port q) [
    | yes same ↦
        subst
          (λ (r : ℕ).
            protostack_get r t
            ≡ (if port == r then or_else (protostack_get r s) (some x) else protostack_get r s))
          same (rw (==_refl port) (get_same nz))
    | no ne ↦ rw (==_of_ne port q ne) (get_other q nzq ne)
  ]

-- A registration where there is room succeeds, keeps the registry valid, and is found under its
-- port unless the port had one before, which stands; the other ports keep theirs. Port 0 is no port.
pub protostack_get-set :
    (s : Protostack) (port x : ℕ)
    → IsValid s
    → is_null (s.internal_stacks (max_proto - 1)) ≡ true
    → port ≢ 0
    → ((protostack_set port (some x) s).0 ≡ true)
      × IsValid (protostack_set port (some x) s).1
      × ((q : ℕ)
          → q ≢ 0
          → protostack_get q (protostack_set port (some x) s).1
            ≡ (if port == q then or_else (protostack_get q s) (some x) else protostack_get q s))
unfolding protostack_set
protostack_get-set s port x v room nz =
    let free : ℕ → Bool = λ i. is_null (s.internal_stacks i) in
    elim (Option-cases (find_first free max_proto)) [
      | inl e ↦
          let full : free 3 ≡ false = find_first-none free max_proto 3 e (omega arith) in
          absurd (false≢true (sym full ∙ room))
      | inr (i, e) ↦
          let (at_i, h) = find_first-some free max_proto i e in
          let below : ((k : ℕ) → k < i → free k ≡ false) =
            λ k l. find_first_before free max_proto i k e l in
          rw (room, e)
            (
              refl,
              filled-IsValid s v i port x at_i below h,
              λ q nzq. get_filled s v i port x at_i below h q nz nzq,
            )
    ]

-- A full registry refuses, and stays as it is.
pub protostack_set_full :
    (s : Protostack) (port : ℕ) (x : Option ℕ)
    → is_null (s.internal_stacks (max_proto - 1)) ≡ false
    → protostack_set port x s ≡ (false, s)
unfolding protostack_set
protostack_set_full s port x full = rw full refl
