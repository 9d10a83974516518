-- ===== src/Plugin/Tests.antt =====
-- Plugins on small examples.
use nginz.Prelude.{
  ℕ, ◌+◌, ◌<◌, ◌≡◌, refl, ◌≢◌, ◌⊎◌, inl, inr, Bool, true, false, Option, none, some, List, [], ◌∷◌,
  ◌++◌, arith, ltb, ◌==◌, if◌then◌else◌, ==_refl, ltb-true, Option-cases, ◌>>=◌,
}
use nginz.Plugin.{max_extensions, InternalPlugin, Otable, composite_plugin_call}
use nginz.Plugin.Chain.{run_all, plug_all, composite_plugin_call-plug_all}

abbrev Chains : Type 0
Chains = ℕ → Option (List (InternalPlugin ℕ))

abbrev is_new : Option (List (InternalPlugin ℕ)) → Bool
is_new none = true
is_new (some l) = false

-- A new name goes into the table while there is a place for it.
abbrev put_chain : Chains × ℕ → ℕ → List (InternalPlugin ℕ) → Chains × ℕ
put_chain (t, n) k l =
    if is_new (t k)
    then (if ltb n max_extensions
        then ((λ k'. if k == k' then some l else t k'), n + 1)
        else (t, n))
    else ((λ k'. if k == k' then some l else t k'), n)

put_chain_lem :
    (t : Chains × ℕ) (k k' : ℕ) (l : List (InternalPlugin ℕ))
    → (t.0 k ≢ none) ⊎ (t.1 < max_extensions)
    → (put_chain t k l).0 k' ≡ (if k == k' then some l else t.0 k')
put_chain_lem (t, n) k k' l place = elim (Option-cases (t k)) [
  | inr (old, e) ↦ rw e refl
  | inl e ↦ elim place [
    | inl has ↦ absurd (has e)
    | inr room ↦ rw (e, ltb-true n max_extensions room) refl
  ]
]

-- The assumptions on the hash table can be met.
abbrev plain_otable : Otable
plain_otable = record {
  Key = ℕ;
  Table = Chains × ℕ;
  equals = ◌==◌;
  get = λ t k. t.0 k;
  set = put_chain;
  count = λ t. t.1;
  chains = λ t. [];
  equals_refl = ==_refl;
  get-set = put_chain_lem;
}

abbrev no_plugins : Chains × ℕ
no_plugins = ((λ k. none), 0)

-- A plugin that notes its call.
abbrev note : ℕ → List ℕ → ℕ × List ℕ
note f log = (0, log ++ f ∷ [])

composite_plugin_call_example :
    (t' : Chains × ℕ) × (plug_all plain_otable no_plugins 7 (1 ∷ 2 ∷ 3 ∷ []) ≡ some t')
    × (composite_plugin_call plain_otable note t' 7 [] ≡ (
        composite_plugin_call plain_otable note no_plugins 7 [] >>= λ r.
        some (run_all note (1 ∷ 2 ∷ 3 ∷ []) r.0 r.1)))
    × ((k' : ℕ) → (7 == k') ≡ false → t'.0 k' ≡ none)
composite_plugin_call_example =
    composite_plugin_call-plug_all plain_otable note no_plugins 7 (1 ∷ 2 ∷ 3 ∷ []) []
      (inr (omega arith))
