-- ===== src/Http/Parse.antt =====
-- apps/http/src/http_parser.c, http_url_parse: the target of a request, and where its content is.
use nginz.Prelude.{
  ℕ, zero, suc, ◌+◌, Bool, true, false, Option, none, some, List, [], ◌∷◌, ltb, leb, ◌==◌,
  if◌then◌else◌, ◌>>=◌, length, take, drop,
}
use nginz.Xtring.{Xtring}

abbrev pub nginz_max_http_header_size : ℕ
nginz_max_http_header_size = 1024

-- strchr(3): the offset of the first `c` in the string, which ends at the first 0 and, zero
-- terminated, with the list.
unfoldable pub strchr : List ℕ → ℕ → Option ℕ
strchr [] c = none
strchr (x ∷ xs) c =
    let rest : Option ℕ = (do i ← strchr xs c; some (i + 1)) in
    if x == c then some 0 else if x == 0 then none else rest

module _ (X : Xtring) where
  open X use {Txt, bytes, shift, truncate, destroyed, of_bytes}

  -- The result, `true` for 0; the target; and the content of the connection.
  pub record Parsed : Type 0 where
    pub ok : Bool
    pub target_url : Txt
    pub content : Txt

  -- The target in the first line of `header_len` bytes: what stands between its first space and
  -- the next one. `none` is -1.
  unfoldable pub request_target : List ℕ → ℕ → Option Txt
  request_target content header_len =
      let line = of_bytes (take header_len content) in
      let cut : Option Txt = (do
        url ← strchr (bytes line) 32
        let target = shift (url + 1) line
        end ← strchr (bytes target) 32
        some (truncate end target)) in
      if ltb nginz_max_http_header_size header_len then none else cut

  -- The loop from the byte at `pos` on, where `content` starts. Each round leaves a line behind.
  unfoldable pub parse_loop : Txt → ℕ → ℕ → Bool → List ℕ → Parsed → Parsed
  parse_loop user_data zero pos is_first content s = s
  parse_loop user_data (suc rounds) pos is_first content s = elim (strchr content 10) [
    | none ↦ s
    | some i ↦
        let next = parse_loop user_data rounds (pos + (i + 1)) false (drop (i + 1) content) in
        if is_first
        then elim (request_target content (i + 1)) [
          | none ↦ record s { ok = false; target_url = destroyed }
          | some target ↦ next (record s { target_url = target })
        ]
        else if leb (i + 1) 4
        then record s { content = shift (pos + (i + 1)) user_data }
        else next s
  ]

  -- As many rounds as bytes are enough.
  unfoldable pub http_url_parse : Txt → Parsed → Parsed
  http_url_parse user_data s =
      parse_loop user_data (length (bytes user_data)) 0 true (bytes user_data)
        (record s { ok = true })
