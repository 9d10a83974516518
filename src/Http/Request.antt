-- ===== src/Http/Request.antt =====
-- A well-formed request, and what the parser finds in it.
use nginz.Prelude.{
  ℕ, zero, suc, ◌+◌, ◌-◌, ◌≤◌, ◌<◌, ◌≡◌, refl, ap, ◌∙◌, ◌≢◌, true, false, some, List, [], ◌∷◌, ◌++◌,
  arith, ltb, leb, if◌then◌else◌, ==_of_ne, ltb-false, leb-true, length, take, drop, length-append,
  drop_all, take_all, All,
}
use mathlib.Core.List.{append_assoc}
use nginz.Xtring.{Xtring}
use nginz.Http.Parse.{
  nginz_max_http_header_size, strchr, Parsed, request_target, parse_loop, http_url_parse,
}

-- No line break, and no 0, in it.
abbrev pub IsText : List ℕ → Type 0
IsText l = All (λ (x : ℕ). (x ≢ 10) × (x ≢ 0)) l

-- And no space.
abbrev pub IsWord : List ℕ → Type 0
IsWord l = All (λ (x : ℕ). (x ≢ 32) × (x ≢ 10) × (x ≢ 0)) l

IsWord-IsText : (l : List ℕ) → IsWord l → IsText l
IsWord-IsText [] h = tt
IsWord-IsText (x ∷ l) ((a, b, c), h) = ((b, c), IsWord-IsText l h)

IsText-append : (a b : List ℕ) → IsText a → IsText b → IsText (a ++ b)
IsText-append [] b h k = k
IsText-append (x ∷ a) b (hx, h) k = (hx, IsText-append a b h k)

strchr_text : (a r : List ℕ) → IsText a → strchr (a ++ 10 ∷ r) 10 ≡ some (length a)
unfolding strchr
strchr_text [] r h = refl
strchr_text (x ∷ a) r ((n, z), h) =
    rw (strchr_text a r h, ==_of_ne x 10 n, ==_of_ne x 0 z) (ap (λ (k : ℕ). some k) (omega arith))

strchr_word : (a r : List ℕ) → IsWord a → strchr (a ++ 32 ∷ r) 32 ≡ some (length a)
unfolding strchr
strchr_word [] r h = refl
strchr_word (x ∷ a) r ((n, l, z), h) =
    rw (strchr_word a r h, ==_of_ne x 32 n, ==_of_ne x 0 z) (ap (λ (k : ℕ). some k) (omega arith))

take_line : (a r : List ℕ) (c : ℕ) → take (length a + 1) (a ++ c ∷ r) ≡ a ++ c ∷ []
take_line [] r c = refl
take_line (x ∷ a) r c =
    let e : length (x ∷ a) + 1 ≡ suc (length a + 1) = omega arith in
    rw e (ap (λ (l : List ℕ). x ∷ l) (take_line a r c))

drop_line : (a r : List ℕ) (c : ℕ) → drop (length a + 1) (a ++ c ∷ r) ≡ r
drop_line [] r c = refl
drop_line (x ∷ a) r c =
    let e : length (x ∷ a) + 1 ≡ suc (length a + 1) = omega arith in rw e (drop_line a r c)

-- The header lines, each with its line break.
abbrev pub header_lines : List (List ℕ) → List ℕ
header_lines [] = []
header_lines (h ∷ hs) = h ++ (10 ∷ header_lines hs)

-- The first line, without its line break.
abbrev pub request_line : List ℕ → List ℕ → List ℕ → List ℕ
request_line method target version = method ++ (32 ∷ (target ++ (32 ∷ version)))

-- A request whose blank line is `blank`, which is "\r" as a rule.
abbrev pub request : List ℕ → List ℕ → List ℕ → List (List ℕ) → List ℕ → List ℕ → List ℕ
request method target version headers blank body =
    request_line method target version ++ (10 ∷ (header_lines headers ++ (blank ++ (10 ∷ body))))

-- Each header is longer than what the parser takes for the blank line.
abbrev pub AreHeaders : List (List ℕ) → Type 0
AreHeaders hs = All (λ (h : List ℕ). IsText h × (4 ≤ length h)) hs

headers_short : (hs : List (List ℕ)) → length hs ≤ length (header_lines hs)
headers_short [] = omega arith
headers_short (h ∷ hs) = omega (arith, headers_short hs, length-append h (10 ∷ header_lines hs))

module _ (X : Xtring) where
  open X use {Txt, bytes, shift, truncate}

  request_target_lem :
      (method target version r : List ℕ)
      → IsWord method
      → IsWord target
      → length (request_line method target version) + 1 ≤ nginz_max_http_header_size
      → (t : Txt) × (request_target X
            (request_line method target version ++ (10 ∷ r))
            (length (request_line method target version) + 1)
          ≡ some t)
        × (bytes t ≡ target)
  unfolding request_target
  request_target_lem method target version r m u fits =
      let first = request_line method target version in
      let whole = first ++ (10 ∷ r) in
      let line : Txt = X.of_bytes (take (length first + 1) whole) in
      let line_bytes : bytes line ≡ first ++ 10 ∷ [] =
        X.bytes-of_bytes (take (length first + 1) whole) ∙ take_line first r 10 in
      let apart : first ++ 10 ∷ [] ≡ method ++ (32 ∷ (target ++ (32 ∷ (version ++ 10 ∷ [])))) =
        append_assoc method (32 ∷ (target ++ (32 ∷ version))) (10 ∷ [])
        ∙ ap (λ (l : List ℕ). method ++ (32 ∷ l)) (append_assoc target (32 ∷ version) (10 ∷ [])) in
      let behind : List ℕ = target ++ (32 ∷ (version ++ 10 ∷ [])) in
      let e : bytes line ≡ method ++ (32 ∷ behind) = line_bytes ∙ apart in
      let found : strchr (bytes line) 32 ≡ some (length method) =
        rw e (strchr_word method behind m) in
      let rest : Txt = shift (length method + 1) line in
      let room : length method + 1 ≤ length (bytes line) =
        rw e (omega (arith, length-append method (32 ∷ behind))) in
      let e' : bytes rest ≡ behind =
        X.bytes-shift (length method + 1) line room ∙ rw e (drop_line method behind 32) in
      let found' : strchr (bytes rest) 32 ≡ some (length target) =
        rw e' (strchr_word target (version ++ 10 ∷ []) u) in
      let room' : length target ≤ length (bytes rest) =
        rw e' (omega (arith, length-append target (32 ∷ (version ++ 10 ∷ [])))) in
      let small : ltb nginz_max_http_header_size (length first + 1) ≡ false =
        ltb-false nginz_max_http_header_size (length first + 1) fits in
      (
        truncate (length target) rest,
        rw (small, found, found') refl,
        X.bytes-truncate (length target) rest room' ∙ rw e' (take_all target _),
      )

  header_step :
      (user_data : Txt) (rounds pos i : ℕ) (content : List ℕ) (s : Parsed X)
      → strchr content 10 ≡ some i
      → parse_loop X user_data (suc rounds) pos false content s ≡ (
          if leb (i + 1) 4
          then record s { content = shift (pos + (i + 1)) user_data }
          else parse_loop X user_data rounds (pos + (i + 1)) false (drop (i + 1) content) s)
  unfolding parse_loop
  header_step user_data rounds pos i content s e = rw (e, parse_loop) refl

  first_step :
      (user_data : Txt) (rounds pos i : ℕ) (content : List ℕ) (s : Parsed X) (t : Txt)
      → strchr content 10 ≡ some i
      → request_target X content (i + 1) ≡ some t
      → parse_loop X user_data (suc rounds) pos true content s
        ≡ parse_loop X user_data rounds
            (pos + (i + 1))
            false
            (drop (i + 1) content)
            (record s { target_url = t })
  unfolding parse_loop
  first_step user_data rounds pos i content s t e f = rw (e, f, parse_loop) refl

  headers_loop :
      (hs : List (List ℕ)) (user_data : Txt) (rounds pos : ℕ) (blank body : List ℕ) (s : Parsed X)
      → length hs < rounds
      → AreHeaders hs
      → IsText blank
      → length blank ≤ 3
      → parse_loop X user_data rounds pos false (header_lines hs ++ (blank ++ (10 ∷ body))) s
        ≡ record s {
          content = shift (pos + (length (header_lines hs) + (length blank + 1))) user_data;
        }
  headers_loop hs user_data zero pos blank body s fuel ok b short = absurd (omega arith)
  headers_loop [] user_data (suc rounds) pos blank body s fuel ok b short =
      let small : leb (length blank + 1) 4 ≡ true = leb-true _ _ (omega arith) in
      header_step user_data rounds pos (length blank) (blank ++ (10 ∷ body)) s
        (strchr_text blank body b)
      ∙ rw small (ap (λ (k : ℕ). record s { content = shift k user_data }) (omega arith))
  headers_loop (h ∷ hs) user_data (suc rounds) pos blank body s fuel ((text, long), ok) b short =
      let r : List ℕ = header_lines hs ++ (blank ++ (10 ∷ body)) in
      let whole : header_lines (h ∷ hs) ++ (blank ++ (10 ∷ body)) ≡ h ++ (10 ∷ r) =
        append_assoc h (10 ∷ header_lines hs) (blank ++ (10 ∷ body)) in
      let big : leb (length h + 1) 4 ≡ false = ground arith in
      let n : pos + (length h + 1) + (length (header_lines hs) + (length blank + 1))
          ≡ pos + (length (header_lines (h ∷ hs)) + (length blank + 1)) =
        omega (arith, length-append h (10 ∷ header_lines hs)) in
      ap (λ (l : List ℕ). parse_loop X user_data (suc rounds) pos false l s) whole
      ∙ header_step user_data rounds pos (length h) (h ++ (10 ∷ r)) s (strchr_text h r text)
      ∙ rw (big, drop_line h r 10)
          (headers_loop hs user_data rounds (pos + (length h + 1)) blank body s (omega arith) ok b
              short
            ∙ ap (λ (k : ℕ). record s { content = shift k user_data }) n)

  -- Of a request with a first line of three words that is not too long, headers of four bytes at
  -- least, a blank line of three at most, and any content, the parser finds the second word and the
  -- content, with the result 0.
  pub http_url_parse-request :
      (method target version blank body : List ℕ) (headers : List (List ℕ)) (user_data : Txt)
      (s : Parsed X)
      → IsWord method
      → IsWord target
      → IsText version
      → AreHeaders headers
      → IsText blank
      → length blank ≤ 3
      → length (request_line method target version) + 1 ≤ nginz_max_http_header_size
      → bytes user_data ≡ request method target version headers blank body
      → ((http_url_parse X user_data s).ok ≡ true)
        × (bytes (http_url_parse X user_data s).target_url ≡ target)
        × (bytes (http_url_parse X user_data s).content ≡ body)
  unfolding http_url_parse
  http_url_parse-request method target version blank body headers user_data s m u v ok b short fits
        e =
      let first = request_line method target version in
      let lines = header_lines headers in
      let rest = lines ++ (blank ++ (10 ∷ body)) in
      let whole = first ++ (10 ∷ rest) in
      let text : IsText first =
        IsText-append method (32 ∷ (target ++ (32 ∷ version))) (IsWord-IsText method m) (
          (omega arith, omega arith),
          IsText-append target (32 ∷ version) (IsWord-IsText target u)
              ((omega arith, omega arith), v),
        ) in
      let size : length whole ≡ length first + (length lines + (length blank + (length body + 2))) =
        omega (
          arith,
          length-append first (10 ∷ rest),
          length-append lines (blank ++ (10 ∷ body)),
          length-append blank (10 ∷ body),
        ) in
      let (t, cut, same) = request_target_lem method target version rest m u fits in
      let rounds = length whole - 1 in
      let fuel : length (bytes user_data) ≡ suc rounds = rw e (omega (arith, size)) in
      let pos = 0 + (length first + 1) in
      let s' : Parsed X = record s { ok = true; target_url = t } in
      let looped =
        headers_loop headers user_data rounds pos blank body s'
          (omega (arith, size, headers_short headers)) ok b short in
      let at = pos + (length lines + (length blank + 1)) in
      let result : http_url_parse X user_data s ≡ record s' { content = shift at user_data } =
        rw (fuel, e)
          (first_step user_data rounds 0 (length first) whole (record s { ok = true }) t
              (strchr_text first rest text) cut
            ∙ rw (drop_line first rest 10) looped) in
      let prefix = first ++ (10 ∷ (lines ++ (blank ++ (10 ∷ [])))) in
      let split : whole ≡ prefix ++ body =
        rw
          (
            append_assoc first (10 ∷ (lines ++ (blank ++ (10 ∷ [])))) body,
            append_assoc lines (blank ++ (10 ∷ [])) body,
            append_assoc blank (10 ∷ []) body,
          )
          refl in
      let at_end : at ≡ length prefix = omega (
        arith,
        length-append first (10 ∷ (lines ++ (blank ++ (10 ∷ [])))),
        length-append lines (blank ++ (10 ∷ [])),
        length-append blank (10 ∷ []),
      ) in
      let room : at ≤ length (bytes user_data) = rw e (omega (arith, size)) in
      let body_bytes : bytes (shift at user_data) ≡ body =
        X.bytes-shift at user_data room ∙ rw (e, split, at_end) (drop_all prefix body) in
      rw result (refl, same, body_bytes)
