-- ===== src/Plugin/Chain.antt =====
-- The order in which the plugins of a name are called.
use nginz.Prelude.{
  ℕ, ◌≡◌, refl, sym, ◌∙◌, ◌≢◌, ◌⊎◌, ◌<◌, inl, inr, false, Option, none, some, List, [], ◌∷◌, ◌++◌,
  Option-cases, ◌>>=◌,
}
use Prim.Native.Nat.{bit_or}
use mathlib.Core.List.{append-nil, append_assoc}
use nginz.Plugin.{
  max_extensions, callback_plugin, InternalPlugin, Otable, append_plugin, chain_of,
  composite_plug_helper, composite_plug_callback, call_chain, call_target, composite_plugin_call,
}

-- The functions one after the other, with the results put together.
pub run_all : {W : Type 0} → (ℕ → W → ℕ × W) → List ℕ → ℕ → W → ℕ × W
run_all run [] ret w = (ret, w)
run_all run (f ∷ fs) ret w = run_all run fs (bit_or ret (run f w).0) (run f w).1

bind_congr :
    {A B : Type 0} (o : Option A) (f g : A → Option B)
    → ((a : A) → f a ≡ g a)
    → (o >>= f) ≡ (o >>= g)
bind_congr none f g h = refl
bind_congr (some a) f g h = h a

module _ (O : Otable) where
  open O use {Key, Table}

  -- The functions are plugged in under one name.
  unfoldable pub plug_all : Table → Key → List ℕ → Option Table
  plug_all t k [] = some t
  plug_all t k (f ∷ fs) = do t' ← composite_plug_callback O t k (some f) 0 0 0; plug_all t' k fs

  -- The name is in the table, or there is a place for it.
  abbrev pub HasPlace : Table → Key → Type 0
  HasPlace t k = (O.get t k ≢ none) ⊎ (O.count t < max_extensions)

  abbrev plugin_of : Key → ℕ → InternalPlugin Key
  plugin_of k f = record {
    target = callback_plugin f;
    plugin_space = k;
    desc = 0;
    filename = 0;
    lineno = 0;
  }

  abbrev plugins : Key → List ℕ → List (InternalPlugin Key)
  plugins k [] = []
  plugins k (f ∷ fs) = plugin_of k f ∷ plugins k fs

  append_plugin-chain_of :
      (o : Option (List (InternalPlugin Key))) (x : InternalPlugin Key)
      → append_plugin O o x ≡ chain_of O o ++ x ∷ []
  append_plugin-chain_of none x = refl
  append_plugin-chain_of (some chain) x = refl

  plug_all_chain :
      (t : Table) (k : Key) (fs : List ℕ)
      → HasPlace t k
      → (t' : Table) × (plug_all t k fs ≡ some t')
        × (chain_of O (O.get t' k) ≡ chain_of O (O.get t k) ++ plugins k fs)
        × ((k' : Key) → O.equals k k' ≡ false → O.get t' k' ≡ O.get t k')
  unfolding plug_all composite_plug_callback composite_plug_helper
  plug_all_chain t k [] place = (t, refl, rw append-nil refl, λ k' ne. refl)
  plug_all_chain t k (f ∷ fs) place =
      let l = append_plugin O (O.get t k) (plugin_of k f) in
      let t1 = O.set t k l in
      let here : O.get t1 k ≡ some l = O.get-set t k k l place ∙ rw (O.equals_refl k) refl in
      let (t2, done, chain, others) =
        plug_all_chain t1 k fs (inl (λ e. let no : some l ≡ none = sym here ∙ e in cc)) in
      (
        t2,
        done,
        chain ∙ rw (here, append_plugin-chain_of (O.get t k) (plugin_of k f), append_assoc) refl,
        λ k' ne. others k' ne ∙ O.get-set t k k' l place ∙ rw ne refl,
      )

  module _ {W : Type 0} (run : ℕ → W → ℕ × W) where
    call_plugins :
        (k : Key) (fs : List ℕ) (ret : ℕ) (w : W)
        → call_chain O run (plugins k fs) ret w ≡ some (run_all run fs ret w)
    unfolding call_chain call_target run_all
    call_plugins k [] ret w = refl
    call_plugins k (f ∷ fs) ret w = call_plugins k fs (bit_or ret (run f w).0) (run f w).1

    call_chain-append :
        (a b : List (InternalPlugin Key)) (ret : ℕ) (w : W)
        → call_chain O run (a ++ b) ret w
          ≡ (call_chain O run a ret w >>= λ r. call_chain O run b r.0 r.1)
    unfolding call_chain
    call_chain-append [] b ret w = refl
    call_chain-append (x ∷ a) b ret w = elim (Option-cases (call_target O run x.target w)) [
      | inl e ↦ rw e refl
      | inr (r, e) ↦ rw e (call_chain-append a b (bit_or ret r.0) r.1)
    ]

    -- Plugging functions in under a name that is in the table, or where the table has less than 32
    -- names, succeeds, and changes no other name. A call of the name then
    -- makes the calls that it made before, and behind them the new ones in the order in which they
    -- were plugged in, with the results put together.
    pub composite_plugin_call-plug_all :
        (t : Table) (k : Key) (fs : List ℕ) (w : W)
        → HasPlace t k
        → (t' : Table) × (plug_all t k fs ≡ some t')
          × (composite_plugin_call O run t' k w
              ≡ (composite_plugin_call O run t k w >>= λ r. some (run_all run fs r.0 r.1)))
          × ((k' : Key) → O.equals k k' ≡ false → O.get t' k' ≡ O.get t k')
    unfolding composite_plugin_call
    composite_plugin_call-plug_all t k fs w place =
        let (t', done, chain, others) = plug_all_chain t k fs place in
        (
          t',
          done,
          rw chain (
              call_chain-append (chain_of O (O.get t k)) (plugins k fs) 0 w
              ∙ bind_congr (call_chain O run (chain_of O (O.get t k)) 0 w)
                  (λ r. call_chain O run (plugins k fs) r.0 r.1)
                  (λ r. some (run_all run fs r.0 r.1)) (λ r. call_plugins k fs r.0 r.1)),
          others,
        )
