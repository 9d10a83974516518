-- ===== src/Http/Handle.antt =====
-- apps/http/src/http_parser.c: what is done with a request, and with the data of a client.
use nginz.Prelude.{
  ℕ, true, false, not, ◌||◌, Option, some, List, ◌∷◌, ltb, ◌==◌, if◌then◌else◌, assert, ◌>>=◌, ◌>>◌,
  length,
}
use nginz.Xtring.{Xtring}
use nginz.Http.Parse.{http_url_parse}
use nginz.Http.Connection.{minus_one, HttpConnection, Web, with_http, unref, default_http_close}

abbrev pub nginz_max_http_msg_size : ℕ
nginz_max_http_msg_size = 1024

-- The two texts that the parser sends itself.
pub data Reply : Type 0 where
  it_works : Reply
  not_found : Reply

-- "http", with a '/' where the target has none, and the target.
unfoldable pub plugin_space : ℕ → List ℕ → List ℕ
plugin_space first target = 104 ∷ 116 ∷ 116 ∷ 112 ∷ (if first == 47 then target else 47 ∷ target)

module _ (X : Xtring) {W : Type 0} where
  open X use {Txt, bytes, char_at, destroyed, of_bytes}

  module _ (close_up : ℕ → Web X × W → Web X × W) (send : HttpConnection X → Reply → W → W)
      (bridge_call : List ℕ → Web X × W → ℕ × (Web X × W)) where
    unfoldable pub http_response_test_and_close : Web X × W → ℕ × (Web X × W)
    http_response_test_and_close (s, w) =
        let t = with_http X (record s.http { quit = true; soft_quit = false }) s in
        (minus_one, default_http_close X close_up (t, send t.http it_works w))

    -- The reply where no plugin has processed the request.
    unfoldable pub say_not_found : Web X × W → Web X × W
    say_not_found (s, w) = (s, (if s.http.is_processed then w else send s.http not_found w))

    -- The sixth character of the target is looked at for a hidden command.
    unfoldable pub http_url_go : Txt → Web X × W → ℕ × (Web X × W)
    http_url_go target (s, w) =
        let t = with_http X (record s.http { is_processed = false }) s in
        let (ret, done) = bridge_call (plugin_space (char_at target 0) (bytes target)) (t, w) in
        if length (bytes target) == 0 || length (bytes target) == 1
        then http_response_test_and_close (s, w)
        else if char_at target 5 == 95
        then http_response_test_and_close (t, w)
        else (ret, say_not_found done)

    unfoldable pub end_client : Web X × W → ℕ × (Web X × W)
    end_client s = let (t, w) = default_http_close X close_up s in (minus_one, (unref X t, w))

    -- What comes behind the request: the content goes, and so does a connection that has quit.
    unfoldable pub after_request : ℕ → Web X × W → ℕ × (Web X × W)
    after_request response (s, w) =
        let t = with_http X (record s.http { content = destroyed }) s in
        let (u, v) = default_http_close X close_up (t, w) in
        (response, if t.http.soft_quit || t.http.quit then (unref X u, v) else (t, w))

    unfoldable pub handle_request : List ℕ → Web X × W → ℕ × (Web X × W)
    handle_request packet (s, w) =
        let p =
          http_url_parse X (of_bytes packet)
            (record { ok = true; target_url = destroyed; content = s.http.content }) in
        let t = with_http X (record s.http { content = p.content }) s in
        let (response, done) =
          if p.ok then http_url_go p.target_url (t, w) else (minus_one, (t, w)) in
        after_request response done

    -- `recv` gives the bytes that came, none of them when the client has gone; a failure, `none`,
    -- is not looked for, and sets the length of the text to -1.
    unfoldable pub http_on_client_data :
        (ℕ → W → Option (List ℕ) × W) → ℕ → Web X × W → Option (ℕ × (Web X × W))
    http_on_client_data recv fd (s, w) = do
      sock ← s.http.fd
      assert (sock == fd)
      let (received, w') = recv fd w
      packet ← received
      some (
          if length packet == 0 || not (ltb (length packet) nginz_max_http_msg_size)
          then end_client (s, w')
          else handle_request packet (s, w'))
