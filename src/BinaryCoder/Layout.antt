-- ===== src/BinaryCoder/Layout.antt =====
-- The bytes that packing lays out.
use nginz.Prelude.{
  ltb-false, ℕ, ◌+◌, ◌%◌, ◌≤◌, ◌<◌, ◌≡◌, refl, ◌∙◌, Bool, true, false, ◌&&◌, List, [], ◌∷◌, ◌++◌,
  arith, ltb, length, length-append,
}
use mathlib.Core.List.{append_assoc}
use nginz.Xtring.{Xtring}
use nginz.BinaryCoder.{
  high_byte, low_byte, binary_coder_header_len, add_header, update_base, binary_pack_string_helper,
}

pub record Field (X : Xtring) : Type 0 where
  pub content_type : ℕ
  pub payload : X.Txt

module _ (X : Xtring) where
  open X use {Txt, bytes, capacity, concat_char, concat, set_char_at}

  abbrev pub encode : Field X → List ℕ
  encode f =
      f.content_type
      ∷ high_byte (length (bytes f.payload))
      ∷ low_byte (length (bytes f.payload))
      ∷ bytes f.payload

  abbrev pub encode_all : List (Field X) → List ℕ
  encode_all [] = []
  encode_all (f ∷ fs) = encode f ++ encode_all fs

  -- The bytes that the fields take.
  abbrev pub size : List (Field X) → ℕ
  size [] = 0
  size (f ∷ fs) = 3 + length (bytes f.payload) + size fs

  -- The fields one after the other, with the results of the calls put together.
  unfoldable pub pack_all : Txt → List (Field X) → Bool × Txt
  pack_all b [] = (true, b)
  pack_all b (f ∷ fs) =
      let (ok, b') = binary_pack_string_helper X b f.payload f.content_type in
      let (oks, b'') = pack_all b' fs in (ok && oks, b'')

  -- A buffer whose first two bytes tell its length.
  abbrev pub IsFramed : Txt → List ℕ → Type 0
  IsFramed b body = bytes b ≡ high_byte (2 + length body) ∷ low_byte (2 + length body) ∷ body

  pub length_framed :
      (b : Txt) (body : List ℕ) → IsFramed b body → length (bytes b) ≡ 2 + length body
  length_framed b body e = rw e (omega arith)

  -- What a call leaves: its bytes, and the room of the buffer.
  abbrev Holds : Txt → List ℕ → ℕ → Type 0
  Holds b l room = (bytes b ≡ l) × (capacity b ≡ room)

  concat_char-Holds :
      (b : Txt) (l : List ℕ) (room c : ℕ)
      → Holds b l room
      → length l + 1 ≤ room
      → c < 256
      → Holds (concat_char c b) (l ++ c ∷ []) room
  concat_char-Holds b l room c (e, r) h lt =
      (X.bytes-concat_char c b (rw (e, r) h) lt ∙ rw e refl, X.capacity-concat_char c b ∙ r)

  add_header-Holds :
      (b : Txt) (l : List ℕ) (room c len : ℕ)
      → Holds b l room
      → length l + 3 ≤ room
      → c < 256
      → Holds (add_header X c len b) (l ++ c ∷ high_byte len ∷ low_byte len ∷ []) room
  unfolding add_header
  add_header-Holds b l room c len hb h lt =
      let one = concat_char-Holds b l room c hb (omega arith) lt in
      let two =
        concat_char-Holds (concat_char c b) (l ++ c ∷ []) room (high_byte len) one
          (rw length-append (omega arith)) (omega arith) in
      let three =
        concat_char-Holds (concat_char (high_byte len) (concat_char c b))
          ((l ++ c ∷ []) ++ high_byte len ∷ []) room (low_byte len) two
          (rw (length-append, length-append) (omega arith)) (omega arith) in
      (three.0 ∙ rw (append_assoc, append_assoc) refl, three.1)

  concat-Holds :
      (b x : Txt) (l : List ℕ) (room : ℕ)
      → Holds b l room
      → length l + length (bytes x) ≤ room
      → Holds (concat b x) (l ++ bytes x) room
  concat-Holds b x l room (e, r) h =
      (X.bytes-concat b x (rw (e, r) h) ∙ rw e refl, X.capacity-concat b x ∙ r)

  set_base-bytes :
      (b : Txt) (h l c d : ℕ) (body : List ℕ)
      → bytes b ≡ h ∷ l ∷ body
      → c < 256
      → d < 256
      → bytes (set_char_at 1 d (set_char_at 0 c b)) ≡ c ∷ d ∷ body
  set_base-bytes b h l c d body e lc ld =
      let first : bytes (set_char_at 0 c b) ≡ c ∷ l ∷ body =
        X.bytes-set_char_at 0 c b (rw e (omega arith)) lc ∙ rw e refl in
      X.bytes-set_char_at 1 d (set_char_at 0 c b) (rw first (omega arith)) ld ∙ rw first refl

  update_base-Holds :
      (b : Txt) (h l : ℕ) (body : List ℕ) (room : ℕ)
      → Holds b (h ∷ l ∷ body) room
      → 2 + length body < 0x1_0000
      → IsFramed (update_base X b) body × (capacity (update_base X b) ≡ room)
  unfolding update_base
  update_base-Holds b h l body room (e, r) lt =
      let n = length (bytes b) % 0x1_0000 in
      let len : n ≡ 2 + length body = rw e (omega arith) in
      (
        set_base-bytes b h l (high_byte n) (low_byte n) body e (omega arith) (omega arith)
            ∙ rw len refl,
        X.capacity-set_char_at 1 (low_byte n) (set_char_at 0 (high_byte n) b)
            ∙ X.capacity-set_char_at 0 (high_byte n) b
            ∙ r,
      )

  add_field : Txt → Field X → Txt
  add_field b f =
      concat (add_header X f.content_type (length (bytes f.payload) % 0x1_0000) b) f.payload

  add_field-Holds :
      (b : Txt) (body : List ℕ) (f : Field X)
      → IsFramed b body
      → 2 + length body + 3 + length (bytes f.payload) ≤ capacity b
      → 2 + length body + 3 + length (bytes f.payload) < 0x1_0000
      → f.content_type < 256
      → Holds
          (add_field b f)
          (high_byte (2 + length body) ∷ low_byte (2 + length body) ∷ (body ++ encode f))
          (capacity b)
  unfolding add_field
  add_field-Holds b body f e fits lt ct =
      let cut : length (bytes f.payload) % 0x1_0000 ≡ length (bytes f.payload) = omega arith in
      let header =
        add_header-Holds b (high_byte (2 + length body) ∷ low_byte (2 + length body) ∷ body)
          (capacity b) f.content_type (length (bytes f.payload)) (e, refl) (omega arith) ct in
      let all =
        concat-Holds (add_header X f.content_type (length (bytes f.payload)) b) f.payload
          (high_byte (2 + length body)
            ∷ low_byte (2 + length body)
            ∷ (body
                ++ f.content_type
                  ∷ high_byte (length (bytes f.payload))
                  ∷ low_byte (length (bytes f.payload))
                  ∷ []))
          (capacity b) header (rw length-append (omega arith)) in
      rw (add_field, cut) (all.0 ∙ rw append_assoc refl, all.1)

  -- A call with enough room adds one field and keeps the length in front true.
  pub binary_pack_string_helper-IsFramed :
      (b : Txt) (body : List ℕ) (f : Field X)
      → IsFramed b body
      → 2 + length body + 3 + length (bytes f.payload) ≤ capacity b
      → 2 + length body + 3 + length (bytes f.payload) < 0x1_0000
      → f.content_type < 256
      → (b' : Txt) × (binary_pack_string_helper X b f.payload f.content_type ≡ (true, b'))
        × IsFramed b' (body ++ encode f)
        × (capacity b' ≡ capacity b)
  unfolding binary_pack_string_helper add_field
  binary_pack_string_helper-IsFramed b body f e fits lt ct =
      let room : ltb (capacity b)
            (length (bytes f.payload) + length (bytes b) % 0x1_0000 + binary_coder_header_len)
          ≡ false =
        ltb-false (capacity b)
          (length (bytes f.payload) + length (bytes b) % 0x1_0000 + binary_coder_header_len)
          (rw (length_framed b body e) (omega arith)) in
      let base =
        update_base-Holds (add_field b f) (high_byte (2 + length body)) (low_byte (2 + length body))
          (body ++ encode f) (capacity b) (add_field-Holds b body f e fits lt ct)
          (rw length-append (omega arith)) in
      (update_base X (add_field b f), rw room refl, base.0, base.1)
