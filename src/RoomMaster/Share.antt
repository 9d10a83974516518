-- ===== src/RoomMaster/Share.antt =====
-- Which worker has which room.
use nginz.Prelude.{ℕ, ◌+◌, ◌*◌, ◌≡◌, refl, true, some, List, [], ◌∷◌, find_first, find_from}
use nginz.Fork.{fork_processors}
use nginz.Chat.{Chats, broadcast_add_room}
use nginz.RoomMaster.{
  room_count, Setup, chat_room_add_helper, default_room_fork_parent_after_callback,
  default_room_fork_child_after_callback,
}

-- The workers from the `k`-th on have two rooms each, those from `2 * k` on, for which they have
-- asked under their own pid, and there is no room behind those of the last one.
abbrev pub Shares : (ℕ → ℕ) → ℕ → List Setup → Type 0
Shares pids k [] = 2 * k ≡ room_count
Shares pids k (c ∷ rest) =
    (c.requests ≡ (2 * k, pids k) ∷ (2 * k + 1, pids k) ∷ [])
    × (c.chats.room_count ≡ 2)
    × ((c.chats.rooms 0).name ≡ 2 * k + 1)
    × ((c.chats.rooms 1).name ≡ 2 * k + 2)
    × Shares pids (k + 1) rest

-- With five workers each of the ten rooms goes to exactly one of them, and each of them has two:
-- the forks succeed, no worker reads outside of the array of the rooms, and every worker asks for
-- its own rooms with its own pid. The master has set up no room of its own before.
pub fork_processors-Shares :
    (pids : ℕ → ℕ) (chats : Chats)
    → (m : Setup) × (children : List Setup) × (fork_processors
          (λ i. some (pids i))
          some
          (λ pid s. some (default_room_fork_parent_after_callback s))
          default_room_fork_child_after_callback
          5
          0
          (record {
            internal_child_count = 0;
            requests = [];
            chats = record chats { room_count = 0 };
          })
        ≡ some (true, m, children))
      × (m.requests ≡ [])
      × Shares pids 0 children
unfolding fork_processors default_room_fork_parent_after_callback
    default_room_fork_child_after_callback chat_room_add_helper broadcast_add_room find_first
    find_from
fork_processors-Shares pids chats = (
  _,
  _,
  refl,
  refl,
  (
    refl,
    refl,
    refl,
    refl,
    (
      refl,
      refl,
      refl,
      refl,
      (refl, refl, refl, refl, (refl, refl, refl, refl, (refl, refl, refl, refl, refl))),
    ),
  ),
)
