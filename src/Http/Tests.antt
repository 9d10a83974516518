-- ===== src/Http/Tests.antt =====
-- The web server on small examples.
use nginz.Prelude.{ℕ, ◌+◌, ◌≡◌, refl, inl, Bool, true, not, ◌&&◌, some, List, [], ◌∷◌, arith, ◌==◌}
use nginz.Xtring.Plain.{plain, plain_xtring}
use nginz.Http.Parse.{Parsed, http_url_parse}
use nginz.Http.Reach.{Event}
use nginz.Http.Request.{request, http_url_parse-request}
use nginz.Http.Connection.{Web, http_alloc}
use nginz.Http.Handle.{Reply, http_on_client_data}
use nginz.Http.Release.{IsReleased, http_on_client_data-release}

-- "GET /a HTTP", a header "Host: b", and the content "xy", with "\r\n" behind each line
abbrev small_request : List ℕ
small_request =
    request (71 ∷ 69 ∷ 84 ∷ []) (47 ∷ 97 ∷ []) (72 ∷ 84 ∷ 84 ∷ 80 ∷ 13 ∷ [])
      ((72 ∷ 111 ∷ 115 ∷ 116 ∷ 58 ∷ 32 ∷ 98 ∷ 13 ∷ []) ∷ []) (13 ∷ []) (120 ∷ 121 ∷ [])

abbrev no_content : Parsed plain_xtring
no_content = record { ok = true; target_url = plain [] 0; content = plain [] 0 }

abbrev parsed : Parsed plain_xtring
parsed = http_url_parse plain_xtring (plain small_request 1024) no_content

http_url_parse-request_example :
    (parsed.ok ≡ true)
    × (parsed.target_url.content ≡ 47 ∷ 97 ∷ [])
    × (parsed.content.content ≡ 120 ∷ 121 ∷ [])
http_url_parse-request_example =
    http_url_parse-request plain_xtring (71 ∷ 69 ∷ 84 ∷ []) (47 ∷ 97 ∷ [])
      (72 ∷ 84 ∷ 84 ∷ 80 ∷ 13 ∷ []) (13 ∷ []) (120 ∷ 121 ∷ [])
      ((72 ∷ 111 ∷ 115 ∷ 116 ∷ 58 ∷ 32 ∷ 98 ∷ 13 ∷ []) ∷ []) (plain small_request 1024) no_content
      (
        (omega arith, omega arith, omega arith),
        ((omega arith, omega arith, omega arith), ((omega arith, omega arith, omega arith), tt)),
      )
      ((omega arith, omega arith, omega arith), ((omega arith, omega arith, omega arith), tt))
      (
        (omega arith, omega arith),
        (
          (omega arith, omega arith),
          (
            (omega arith, omega arith),
            ((omega arith, omega arith), ((omega arith, omega arith), tt)),
          ),
        ),
      )
      (
        (
          (
            (omega arith, omega arith),
            (
              (omega arith, omega arith),
              (
                (omega arith, omega arith),
                (
                  (omega arith, omega arith),
                  (
                    (omega arith, omega arith),
                    (
                      (omega arith, omega arith),
                      ((omega arith, omega arith), ((omega arith, omega arith), tt)),
                    ),
                  ),
                ),
              ),
            ),
          ),
          omega arith,
        ),
        tt,
      )
      ((omega arith, omega arith), tt) (omega arith) (omega arith) refl

abbrev one_client : Web plain_xtring
one_client = record {
  http = http_alloc plain_xtring 7;
  loop = record {
    internal_fds = λ i. record { fd = 7; events = 1; revents = 1 };
    internal_callback = λ i. record { on_event = 50; event_data = 60 };
    internal_nfds = 1;
  };
  closed = [];
  refs = 1;
}

-- The world counts the replies, and the calls of plugins by tens.
abbrev count_reply : Reply → ℕ → ℕ
count_reply r n = n + 1

abbrev call_plugin : List ℕ → Web plain_xtring × ℕ → ℕ × (Web plain_xtring × ℕ)
call_plugin name (s, n) = (0, (s, n + 10))

abbrev no_stream : ℕ → Web plain_xtring × ℕ → Web plain_xtring × ℕ
no_stream u s = s

http_on_client_data-release_example :
    (r : ℕ × (Web plain_xtring × ℕ)) × (http_on_client_data plain_xtring no_stream
        (λ http. count_reply)
        call_plugin
        (λ fd n. (some small_request, n))
        7
        (one_client, 0)
      ≡ some r)
    × IsReleased plain_xtring 7 1 r.1.0
http_on_client_data-release_example =
    http_on_client_data-release plain_xtring no_stream (λ http. count_reply) call_plugin
      (λ fd n. (some small_request, n)) 7 small_request (one_client, 0) (λ u s. (refl, refl))
      (λ l s. (refl, λ e. inl e)) (unfold http_alloc in refl) refl

abbrev no_log : ℕ → Web plain_xtring × List Event → Web plain_xtring × List Event
no_log u s = s

-- "/_webchat_hiddenjoin"
abbrev hidden_target : List ℕ
hidden_target =
    47 ∷ 95 ∷ 119 ∷ 101 ∷ 98 ∷ 99 ∷ 104 ∷ 97 ∷ 116 ∷ 95 ∷ 104 ∷ 105 ∷ 100 ∷ 100 ∷ 101 ∷ 110 ∷ 106
    ∷ 111 ∷ 105 ∷ 110 ∷ []

abbrev is_word : List ℕ → Bool
is_word [] = true
is_word (x ∷ l) = not (x == 32) && (not (x == 10) && (not (x == 0) && is_word l))

abbrev all_processed : List ℕ → Bool
all_processed name = true
