-- ===== src/Bubbles/Tests.antt =====
-- A message from one process to another.
use nginz.Prelude.{
  ℕ, zero, suc, ◌+◌, ◌-◌, ◌*◌, ◌≤◌, ◌≡◌, refl, true, false, Option, none, some, List, [], ◌∷◌, ◌++◌,
  arith, ◌==◌, if◌then◌else◌, ==_refl, length, length-append,
}
use nginz.Xtring.Plain.{PlainTxt, plain, plain_xtring}
use nginz.BinaryCoder.{high_byte, low_byte}
use nginz.BinaryCoder.Layout.{Field, encode_all}
use nginz.BinaryCoder.Framed.{text_field}
use nginz.EventLoop.{EventLoop}
use nginz.Pipeline.{Pipeline, pp_send}
use nginz.Pipeline.Lookup.{IsStar}
use nginz.Bubbles.{Pipe, pp_simple_sendmsg, on_bubbles}
use nginz.Bubbles.Delivery.{IsReady, on_bubbles-pp_send}

-- What waits at each socket.
abbrev Queues : Type 0
Queues = ℕ → List (List ℕ)

abbrev put : Queues → ℕ → List (List ℕ) → Queues
put w q l = λ p. if p == q then l else w p

-- What fills the buffer up behind a message.
abbrev zeros : ℕ → List ℕ
zeros zero = []
zeros (suc n) = 0 ∷ zeros n

length-zeros : (n : ℕ) → length (zeros n) ≡ n
length-zeros zero = refl
length-zeros (suc n) = rw (length-zeros n) (omega arith)

abbrev take_first : Queues → ℕ → ℕ → List (List ℕ) → Option (List ℕ) × Queues
take_first w q room [] = (none, w)
take_first w q room (l ∷ rest) = (some (l ++ zeros (room - length l)), put w q rest)

take_first_lem :
    (w : Queues) (q room : ℕ) (l : List ℕ) (rest : List (List ℕ))
    → w q ≡ l ∷ rest
    → length l ≤ room
    → (junk : List ℕ) × (length (l ++ junk) ≡ room)
      × ((take_first w q room (w q)).0 ≡ some (l ++ junk))
take_first_lem w q room l rest e h =
    (zeros (room - length l), rw (length-append, length-zeros) (omega arith), rw e refl)

-- The ends of a pair are numbered one after the other.
abbrev small_pipe : Pipe
small_pipe = record {
  World = Queues;
  peer = λ q. q + 1;
  queue = λ q w. w q;
  sendmsg = λ q l w. (true, put w (q + 1) (w (q + 1) ++ l ∷ []));
  recvmsg = λ q room w. take_first w q room (w q);
  close = λ fd w. w;
  queue-sendmsg = λ q l w ok. rw (==_refl (q + 1)) refl;
  recvmsg_lem = λ q room l rest w e h. take_first_lem w q room l rest e h;
}

abbrev pids : ℕ → ℕ
pids i = 100 + i

pids-IsStar : IsStar pids
pids-IsStar = record { nonzero = λ i h. omega arith; distinct = λ i j h k e. omega arith }

-- The table, in the process of node `i`.
abbrev star_at : ℕ → Pipeline
star_at i = record {
  nodes =
      λ k. record { nid = pids k; fd0 = 20 + 2 * k; fd1 = 21 + 2 * k; raw_fd0 = 5; raw_fd1 = 6 };
  mynode = some i;
}

abbrev sender : Field plain_xtring
sender = record { content_type = 2; payload = plain (0 ∷ 100 ∷ []) 32 }

-- "ping"
abbrev ping : PlainTxt
ping = plain (112 ∷ 105 ∷ 110 ∷ 103 ∷ []) 32

abbrev body : List ℕ
body = encode_all plain_xtring (sender ∷ text_field plain_xtring ping ∷ [])

abbrev packet : PlainTxt
packet = plain (high_byte (2 + length body) ∷ low_byte (2 + length body) ∷ body) 1024

abbrev empty_queues : Queues
empty_queues q = []

empty_queues-IsReady : IsReady small_pipe (star_at 0) (star_at 3) 3 empty_queues
empty_queues-IsReady = record { mine = refl; paired = refl; taken = λ l. refl; alone = refl }

abbrev nothing_watched : EventLoop
nothing_watched = record {
  internal_fds = λ i. record { fd = 0; events = 0; revents = 0 };
  internal_callback = λ i. record { on_event = 0; event_data = 0 };
  internal_nfds = 0;
}

-- The process notes the names that are called.
abbrev note :
    List ℕ → PlainTxt → EventLoop × (List (List ℕ) × Queues) → EventLoop × (List (List ℕ) × Queues)
note name cmd (loop, (s, w)) = (loop, (name ∷ s, w))

on_bubbles-pp_send_example :
    (w' w'' : Queues) × (cmd : PlainTxt) × (junk : List ℕ) × (pp_send
        (pp_simple_sendmsg plain_xtring small_pipe)
        103
        packet
        (star_at 0)
        empty_queues
      ≡ some (true, w'))
    × (on_bubbles plain_xtring small_pipe note false 27 (star_at 3) (nothing_watched, ([], w'))
        ≡ some (nothing_watched, (ping.content ∷ [], w'')))
    × (cmd.content ≡ packet.content ++ junk)
on_bubbles-pp_send_example =
    on_bubbles-pp_send plain_xtring small_pipe note pids (star_at 0) (star_at 3) 3 packet ping
      sender [] nothing_watched [] empty_queues pids-IsStar (λ i h. refl) (omega arith)
      empty_queues-IsReady refl (omega arith) (omega arith) (omega arith)
