-- ===== src/Handover/Tests.antt =====
-- The way of a connection on a small example.
use nginz.Prelude.{
  ℕ, zero, suc, ◌+◌, ◌-◌, ◌*◌, ◌≤◌, ◌≡◌, refl, true, Option, none, some, List, [], ◌∷◌, ◌++◌, arith,
  ◌==◌, if◌then◌else◌, ==_refl, ◌>>=◌, length, length-append, find_first, find_from,
}
use nginz.Xtring.Plain.{PlainTxt, plain, plain_xtring}
use nginz.BinaryCoder.{binary_unpack_string}
use nginz.Pipeline.{Pipeline}
use nginz.Pipeline.Lookup.{IsStar}
use nginz.Protostack.{Protostack, protostack_get}
use nginz.LoadBalancer.{load_balancer_setup}
use nginz.LoadBalancer.RoundRobin.{next_times}
use nginz.Handover.{Kernel, chat_port, chat_welcome, send_connection, on_raw_recv_socket}
use nginz.Handover.Turns.{IsReady, on_raw_recv_socket-send_connection}

-- What waits at each socket.
abbrev Queues : Type 0
Queues = ℕ → List (ℕ × List ℕ)

abbrev put : Queues → ℕ → List (ℕ × List ℕ) → Queues
put w q l = λ p. if p == q then l else w p

-- What fills the buffer up behind a message.
abbrev zeros : ℕ → List ℕ
zeros zero = []
zeros (suc n) = 0 ∷ zeros n

length-zeros : (n : ℕ) → length (zeros n) ≡ n
length-zeros zero = refl
length-zeros (suc n) = rw (length-zeros n) (omega arith)

abbrev take_first : Queues → ℕ → ℕ → List (ℕ × List ℕ) → Option (Option ℕ × List ℕ) × Queues
take_first w q room [] = (none, w)
take_first w q room ((target, l) ∷ rest) =
    (some (some 9, l ++ zeros (room - length l)), put w q rest)

take_first_lem :
    (w : Queues) (q room target : ℕ) (l : List ℕ) (rest : List (ℕ × List ℕ))
    → w q ≡ (target, l) ∷ rest
    → length l ≤ room
    → (junk : List ℕ) × (length (l ++ junk) ≡ room)
      × ((take_first w q room (w q)).0 ≡ some (some 9, l ++ junk))
take_first_lem w q room target l rest e h =
    (zeros (room - length l), rw (length-append, length-zeros) (omega arith), rw e refl)

-- The ends of a pair are numbered one after the other.
abbrev small_kernel : Kernel
small_kernel = record {
  World = Queues;
  peer = λ q. q + 1;
  queue = λ q w. w q;
  installed = λ q w. 9;
  sendmsg = λ q target l w. (true, put w (q + 1) (w (q + 1) ++ (target, l) ∷ []));
  recvmsg = λ q room w. take_first w q room (w q);
  close = λ fd w. w;
  queue-sendmsg = λ q target l w ok. rw (==_refl (q + 1)) refl;
  queue-close = λ q fd w. refl;
  recvmsg_lem = λ q room target l rest w e h. take_first_lem w q room target l rest e h;
}

abbrev pids : ℕ → ℕ
pids i = 100 + i

pids-IsStar : IsStar pids
pids-IsStar = record { nonzero = λ i h. omega arith; distinct = λ i j h k e. omega arith }

abbrev star : Pipeline
star = record {
  nodes =
      λ i. record { nid = pids i; fd0 = 3; fd1 = 4; raw_fd0 = 20 + 2 * i; raw_fd1 = 21 + 2 * i };
  mynode = some 0;
}

-- The chat is the first protocol.
abbrev stacks : Protostack
stacks = record {
  internal_port_for_stacks = λ i. if i == 0 then chat_port else 0;
  internal_stacks = λ i. if i == 0 then some 7 else none;
}

stacks_chat : protostack_get chat_port stacks ≡ some 7
unfolding protostack_get find_first find_from
stacks_chat = refl

abbrev empty_queues : Queues
empty_queues q = []

empty_queues-IsReady : IsReady small_kernel star 3 50 empty_queues
empty_queues-IsReady = record { paired = refl; taken = λ l. refl; alone = refl }

abbrev Arrivals : Type 0
Arrivals = List (ℕ × (Option ℕ × PlainTxt))

-- The worker notes the calls of the handlers.
abbrev note : ℕ → Option ℕ → PlainTxt → Arrivals × Queues → Option (Arrivals × Queues)
note stack target cmd (s, w) = some ((stack, (target, cmd)) ∷ s, w)

-- The third connection of the chat.
on_raw_recv_socket-send_connection_example :
    (w' w'' : Queues) × (cmd x : PlainTxt) × ((do
      lb ← next_times star 2 (load_balancer_setup 100)
      send_connection plain_xtring small_kernel chat_port chat_welcome
          (plain [] 1024)
          50
          star
          (lb, empty_queues))
      ≡ some (record { nid = 103 }, w'))
    × (on_raw_recv_socket plain_xtring small_kernel note 27 stacks ([], w')
        ≡ some ((7, (some 9, cmd)) ∷ [], w''))
    × (binary_unpack_string plain_xtring cmd 2 ≡ some (true, x))
    × (x.content ≡ chat_welcome)
on_raw_recv_socket-send_connection_example =
    on_raw_recv_socket-send_connection plain_xtring small_kernel note pids star stacks 2 chat_port 7
      50 chat_welcome (plain [] 1024) [] empty_queues pids-IsStar (λ i h. refl) empty_queues-IsReady
      (omega arith) (omega arith) (omega arith) stacks_chat
