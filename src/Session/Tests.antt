-- ===== src/Session/Tests.antt =====
-- Connections on small examples.
use nginz.Prelude.{
  ℕ, ◌+◌, ◌≤◌, ◌<◌, ◌≡◌, refl, Bool, false, Option, some, List, [], ◌∷◌, arith, ◌==◌, if◌then◌else◌,
}
use nginz.LazyCall.{Lazy}
use nginz.Session.{ChatConnection, Session, chat_alloc}
use nginz.Session.Accept.{Reply, on_client_data}
use nginz.Session.Zombie.{Zombies, chat_lazy_cleanup_fiber, cleaned, IsQueued}
use nginz.Session.Release.{IsTame, IsForeign}
use nginz.Session.Ending.{Outcome, on_client_data-release}
use nginz.Session.Cleanup.{chat_lazy_cleanup_fiber_lem}

abbrev one_client : Session
one_client = record {
  chat = chat_alloc 7;
  loop = record {
    internal_fds = λ i. record { fd = 7; events = 1; revents = 1 };
    internal_callback = λ i. record { on_event = 50; event_data = 60 };
    internal_nfds = 1;
  };
  closed = [];
  refs = 1;
  zombies = 0;
}

abbrev no_change : Session × ℕ → Session × ℕ
no_change s = s

abbrev no_stream : ℕ → Session × ℕ → Session × ℕ
no_stream u s = s

abbrev no_command : List ℕ → Session × ℕ → Bool × (Session × ℕ)
no_command l s = (false, s)

abbrev no_response : List ℕ → Session × ℕ → Session × ℕ
no_response l s = s

abbrev count_reply : ChatConnection → Reply → ℕ → Bool × ℕ
count_reply x r n = (false, n + 1)

same-IsTame : IsTame no_change
same-IsTame s = ((refl, refl, refl, refl, refl), (refl, refl, refl, refl, refl))

same-IsForeign : IsForeign no_stream
same-IsForeign u s = ((refl, refl, refl, refl, refl), refl)

-- "hi\n"
abbrev hello : ℕ → ℕ → Option (List ℕ) × ℕ
hello fd n = (some (104 ∷ 105 ∷ 10 ∷ []), n)

on_client_data-release_example :
    (r : ℕ × (Session × ℕ)) × (on_client_data 1000 no_change no_change no_stream no_command
        no_response count_reply false hello 7
        (one_client, 0)
      ≡ some r)
    × Outcome 1000 no_change no_change no_stream
        (omega arith)
        same-IsTame
        same-IsTame
        same-IsForeign
        7
        one_client
        r
on_client_data-release_example =
    on_client_data-release 1000 no_change no_change no_stream (omega arith) same-IsTame same-IsTame
      same-IsForeign no_command no_response count_reply
      (λ l fd s. ((refl, refl, refl), λ held. held)) (λ l fd s. ((refl, refl, refl), λ held. held))
      hello 7 (one_client, 0) (unfold chat_alloc in refl) (unfold chat_alloc in refl)

-- Three zombies: the second one quit long ago.
abbrev quit_times : ℕ → ℕ
quit_times c = if c == 5 then 100 else 990

abbrev three : Zombies
three = record { zombie_list = 4 ∷ 5 ∷ 6 ∷ []; gear = 10 }

abbrev empty_queue : Lazy
empty_queue = record {
  lazy_stack_count = 0;
  lazy_stack = λ i. 0;
  lazy_stack_data = λ i. 0;
  lazy_cleanup_count = 0;
  lazy_cleanup_objects = λ i. 0;
}

chat_lazy_cleanup_fiber_example :
    (10 < 10
      → chat_lazy_cleanup_fiber 1000 quit_times (three, empty_queue)
        ≡ some (record three { gear = 11 }, empty_queue))
    × (10 ≤ 10
        → (t : Lazy) × (chat_lazy_cleanup_fiber 1000 quit_times (three, empty_queue)
            ≡ some (record three { gear = 0 }, t))
          × IsQueued (cleaned 1000 quit_times three.zombie_list) empty_queue t)
chat_lazy_cleanup_fiber_example =
    chat_lazy_cleanup_fiber_lem 1000 quit_times three empty_queue (unfold cleaned in omega arith)
