-- ===== src/Plugin.antt =====
-- base/src/plugin.c: plugins by name. The plugins of one name form a chain along `next`, here a
-- list; the hash table of aroop is a parameter, which holds the chains. A function pointer and a
-- container are named by numbers.
mod Chain
mod Tests
use nginz.Prelude.{
  ℕ, ◌<◌, ◌≡◌, ◌≢◌, ◌⊎◌, Bool, true, Option, none, some, List, [], ◌∷◌, ◌++◌, if◌then◌else◌, ◌>>=◌,
  ◌>>◌, set,
}
use Prim.Native.Nat.{bit_or}

-- The category with the pointer of the union.
pub data Target : Type 0 where
  callback_plugin : ℕ → Target
  bridge_plugin : ℕ → Target
  composite_plugin : ℕ → Target

pub record InternalPlugin (Key : Type 0) : Type 0 where
  pub target : Target
  pub plugin_space : Key
  pub desc : ℕ
  pub filename : ℕ
  pub lineno : ℕ

abbrev pub max_extensions : ℕ
max_extensions = 32

-- `opp_hash_otable`: a table from names to chains, with a place for each of `max_extensions` names.
-- `count` is the number of names in it. Nothing is said of a name that finds no place.
pub record Otable : Type 1 where
  pub Key : Type 0
  pub Table : Type 0
  pub equals : Key → Key → Bool
  pub get : Table → Key → Option (List (InternalPlugin Key))
  pub set : Table → Key → List (InternalPlugin Key) → Table
  pub count : Table → ℕ
  -- the chains in the order of the traversal
  pub chains : Table → List (List (InternalPlugin Key))
  pub equals_refl : (k : Key) → equals k k ≡ true
  pub get-set :
      (t : Table) (k k' : Key) (l : List (InternalPlugin Key))
      → (get t k ≢ none) ⊎ (count t < max_extensions)
      → get (set t k l) k' ≡ (if equals k k' then some l else get t k')

-- The first pointer that is not NULL says the category, and with none the process stops.
abbrev pub target_of : Option ℕ → Option ℕ → Option ℕ → Option Target
target_of (some f) b i = some (callback_plugin f)
target_of none (some f) i = some (bridge_plugin f)
target_of none none (some x) = some (composite_plugin x)
target_of none none none = none

module _ (O : Otable) where
  open O use {Key, Table}

  -- `root->next ... = plugin`, or a new root.
  abbrev pub append_plugin :
      Option (List (InternalPlugin Key)) → InternalPlugin Key → List (InternalPlugin Key)
  append_plugin none plugin = plugin ∷ []
  append_plugin (some chain) plugin = chain ++ plugin ∷ []

  unfoldable pub composite_plug_helper :
      Table → Key → Option ℕ → Option ℕ → Option ℕ → ℕ → ℕ → ℕ → Option Table
  composite_plug_helper container plugin_space callback bridge inner desc filename lineno = do
    target ← target_of callback bridge inner
    some (
        O.set container plugin_space (
          append_plugin (O.get container plugin_space) (record {
            target = target;
            plugin_space = plugin_space;
            desc = desc;
            filename = filename;
            lineno = lineno;
          })))

  pub composite_plug_callback : Table → Key → Option ℕ → ℕ → ℕ → ℕ → Option Table
  composite_plug_callback container plugin_space callback desc filename lineno =
      composite_plug_helper container plugin_space callback none none desc filename lineno

  pub composite_plug_bridge : Table → Key → Option ℕ → ℕ → ℕ → ℕ → Option Table
  composite_plug_bridge container plugin_space bridge desc filename lineno =
      composite_plug_helper container plugin_space none bridge none desc filename lineno

  pub composite_plug_inner_composite : Table → Key → Option ℕ → ℕ → ℕ → ℕ → Option Table
  composite_plug_inner_composite container plugin_space inner desc filename lineno =
      composite_plug_helper container plugin_space none none inner desc filename lineno

  abbrev pub chain_of : Option (List (InternalPlugin Key)) → List (InternalPlugin Key)
  chain_of none = []
  chain_of (some chain) = chain

  module _ {W : Type 0} (run : ℕ → W → ℕ × W) where
    -- The plugin has to be of the category.
    call_target : Target → W → Option (ℕ × W)
    call_target (callback_plugin f) w = some (run f w)
    call_target (bridge_plugin f) w = none
    call_target (composite_plugin x) w = none

    -- `while(plugin)`: the results are put together.
    call_chain : List (InternalPlugin Key) → ℕ → W → Option (ℕ × W)
    unfolding call_target
    call_chain [] ret w = some (ret, w)
    call_chain (plugin ∷ chain) ret w = do
      r ← call_target plugin.target w
      call_chain chain (bit_or ret r.0) r.1

    pub composite_plugin_call : Table → Key → W → Option (ℕ × W)
    unfolding call_chain
    composite_plugin_call container plugin_space w =
        call_chain (chain_of (O.get container plugin_space)) 0 w

    bridge_target : Target → W → Option (ℕ × W)
    bridge_target (callback_plugin f) w = none
    bridge_target (bridge_plugin f) w = some (run f w)
    bridge_target (composite_plugin x) w = none

    bridge_chain : List (InternalPlugin Key) → ℕ → W → Option (ℕ × W)
    unfolding bridge_target
    bridge_chain [] ret w = some (ret, w)
    bridge_chain (plugin ∷ chain) ret w = do
      r ← bridge_target plugin.target w
      bridge_chain chain (bit_or ret r.0) r.1

    pub composite_plugin_bridge_call : Table → Key → W → Option (ℕ × W)
    unfolding bridge_chain
    composite_plugin_bridge_call container plugin_space w =
        bridge_chain (chain_of (O.get container plugin_space)) 0 w

  module _ {W : Type 0} (visitor : InternalPlugin Key → W → W) where
    composite_plugin_visit_all_helper : List (InternalPlugin Key) → W → W
    composite_plugin_visit_all_helper [] w = w
    composite_plugin_visit_all_helper (plugin ∷ chain) w =
        composite_plugin_visit_all_helper chain (visitor plugin w)

    visit_chains : List (List (InternalPlugin Key)) → W → W
    unfolding composite_plugin_visit_all_helper
    visit_chains [] w = w
    visit_chains (chain ∷ rest) w = visit_chains rest (composite_plugin_visit_all_helper chain w)

    pub composite_plugin_visit_all : Table → W → W
    unfolding visit_chains
    composite_plugin_visit_all container w = visit_chains (O.chains container) w
