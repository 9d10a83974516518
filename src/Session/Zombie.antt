-- ===== src/Session/Zombie.antt =====
-- apps/chat/src/chat_zombie.c: the list of the connections that have ended, and the fiber that
-- cleans it up. A connection in the list is named by a number, as is its entry.
use nginz.Prelude.{
  ℕ, ◌+◌, ◌-◌, ◌<◌, ◌≡◌, Bool, not, ◌&&◌, ◌||◌, Option, some, List, [], ◌∷◌, ltb, leb, ◌==◌,
  if◌then◌else◌, ◌>>=◌, length, get_or, Array,
}
use nginz.LazyCall.{Lazy, lazy_cleanup}

pub record Zombies : Type 0 where
  pub zombie_list : List ℕ
  pub gear : ℕ

-- The test under which the fiber passes over a connection.
abbrev pub is_passed_over : ℕ → ℕ → Bool
is_passed_over now quited_at = quited_at == 0 || ltb 120 (now - quited_at)

-- The loop over the list.
unfoldable pub cleanup_all : ℕ → Array ℕ → List ℕ → Lazy → Option Lazy
cleanup_all now quited_at [] lazy = some lazy
cleanup_all now quited_at (c ∷ l) lazy =
    let skip = cleanup_all now quited_at l lazy in
    let clean : Option Lazy = (do
      lazy' ← lazy_cleanup (some c) lazy
      cleanup_all now quited_at l lazy') in
    if is_passed_over now (quited_at c) then skip else clean

-- Every eleventh call does something.
unfoldable pub chat_lazy_cleanup_fiber : ℕ → Array ℕ → Zombies × Lazy → Option (Zombies × Lazy)
chat_lazy_cleanup_fiber now quited_at (z, lazy) =
    let clean : Option (Zombies × Lazy) = (do
      lazy' ← cleanup_all now quited_at z.zombie_list lazy
      some (record z { gear = 0 }, lazy')) in
    if ltb z.gear 10
    then some (record z { gear = z.gear + 1 }, lazy)
    else if length z.zombie_list == 0
    then some (record z { gear = 0 }, lazy)
    else clean

-- OPPUNREF of every entry takes it out of the list.
unfoldable pub chat_zombie_on_softquit : {W : Type 0} → (ℕ → W → W) → List ℕ → W → W
chat_zombie_on_softquit unref_entry [] w = w
chat_zombie_on_softquit unref_entry (c ∷ l) w =
    chat_zombie_on_softquit unref_entry l (unref_entry c w)

-- The connection has quit, and no more than two minutes ago.
abbrev pub is_recent : ℕ → ℕ → Bool
is_recent now quited_at = not (quited_at == 0) && leb now (quited_at + 120)

-- The connections that have quit no more than two minutes ago, in their order.
unfoldable pub cleaned : ℕ → Array ℕ → List ℕ → List ℕ
cleaned now quited_at [] = []
cleaned now quited_at (c ∷ l) =
    let rest = cleaned now quited_at l in if is_recent now (quited_at c) then c ∷ rest else rest

-- The queue holds the list behind what it held before.
abbrev pub IsQueued : List ℕ → Lazy → Lazy → Type 0
IsQueued l s t =
    (t.lazy_cleanup_count ≡ s.lazy_cleanup_count + length l)
    × ((i : ℕ) → i < s.lazy_cleanup_count → t.lazy_cleanup_objects i ≡ s.lazy_cleanup_objects i)
    × ((i : ℕ) → i < length l → t.lazy_cleanup_objects (s.lazy_cleanup_count + i) ≡ get_or l i 0)
