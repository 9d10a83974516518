-- ===== src/BinaryCoder/Message.antt =====
-- A message that is packed from an empty buffer, and unpacked field by field.
use nginz.Prelude.{
  leb-true, ℕ, ◌+◌, ◌*◌, ◌%◌, ◌≤◌, ◌<◌, ◌≡◌, refl, sym, ap, ◌∙◌, true, some, List, [], ◌∷◌, ◌++◌,
  arith, ==_of_ne, length, length-append, All,
}
use mathlib.Core.Path.{subst}
use mathlib.Core.List.{append-nil, append_assoc}
use nginz.Xtring.{Xtring}
use nginz.BinaryCoder.{
  binary_coder_reset, unpack_loop, base_len, binary_unpack_string_helper, high_byte, low_byte,
}
use nginz.BinaryCoder.Layout.{
  Field, encode, encode_all, size, pack_all, IsFramed, binary_pack_string_helper-IsFramed,
}
use nginz.BinaryCoder.RoundTrip.{two_bytes, length-encode_all, unpack_loop_lem}

module _ (X : Xtring) where
  open X use {Txt, bytes, capacity, memory, shift, set_length, concat_char, char_at}

  encode_all-append :
      (fs gs : List (Field X)) → encode_all X (fs ++ gs) ≡ encode_all X fs ++ encode_all X gs
  encode_all-append [] gs = refl
  encode_all-append (f ∷ fs) gs = rw (encode_all-append fs gs, append_assoc) refl

  size-append : (fs gs : List (Field X)) → size X (fs ++ gs) ≡ size X fs + size X gs
  size-append [] gs = omega arith
  size-append (f ∷ fs) gs = omega (arith, size-append fs gs)

  pub pack_all-IsFramed :
      (b : Txt) (body : List ℕ) (fs : List (Field X))
      → IsFramed X b body
      → All (λ f. f.content_type < 256) fs
      → 2 + length body + size X fs ≤ capacity b
      → 2 + length body + size X fs < 0x1_0000
      → (b' : Txt) × (pack_all X b fs ≡ (true, b')) × IsFramed X b' (body ++ encode_all X fs)
  unfolding pack_all
  pack_all-IsFramed b body [] e ct fits lt = (b, refl, rw append-nil e)
  pack_all-IsFramed b body (f ∷ fs) e (c, ct) fits lt =
      let (b', run, framed, room) =
        binary_pack_string_helper-IsFramed X b body f e (omega arith) (omega arith) c in
      let grown : length (body ++ encode X f) ≡ length body + (3 + length (bytes f.payload)) =
        rw length-append (omega arith) in
      let (b'', runs, framed') =
        pack_all-IsFramed b' (body ++ encode X f) fs framed ct (rw (room, grown) (omega arith))
          (rw grown (omega arith)) in
      (
        b'',
        rw (run, runs) refl,
        rw (sym (append_assoc body (encode X f) (encode_all X fs))) framed',
      )

  reset_parts :
      (b b' : Txt)
      → binary_coder_reset X b ≡ some b'
      → (256 ≤ capacity b) × (concat_char 2 (concat_char 0 (set_length 0 b)) ≡ b')
  unfolding binary_coder_reset
  reset_parts b b' e =
      let room : capacity (concat_char 2 (concat_char 0 (set_length 0 b))) ≡ capacity b =
        X.capacity-concat_char 2 (concat_char 0 (set_length 0 b))
        ∙ X.capacity-concat_char 0 (set_length 0 b)
        ∙ X.capacity-set_length 0 b in
      ground (arith, room)

  pub binary_coder_reset_lem :
      (b : Txt) → 256 ≤ capacity b → (b' : Txt) × (binary_coder_reset X b ≡ some b')
  unfolding binary_coder_reset
  binary_coder_reset_lem b big =
      let start = concat_char 2 (concat_char 0 (set_length 0 b)) in
      let room : capacity start ≡ capacity b =
        X.capacity-concat_char 2 (concat_char 0 (set_length 0 b))
        ∙ X.capacity-concat_char 0 (set_length 0 b)
        ∙ X.capacity-set_length 0 b in
      (start, rw (leb-true 256 (capacity start) (rw room big)) refl)

  pub binary_coder_reset-IsFramed :
      (b b' : Txt)
      → binary_coder_reset X b ≡ some b'
      → IsFramed X b' [] × (capacity b' ≡ capacity b)
  unfolding binary_coder_reset
  binary_coder_reset-IsFramed b b' e =
      let empty = set_length 0 b in
      let start = reset_parts b b' e in
      let none_left : bytes empty ≡ [] = X.bytes-set_length 0 b (omega arith) in
      let room : capacity (concat_char 0 empty) ≡ capacity b =
        X.capacity-concat_char 0 empty ∙ X.capacity-set_length 0 b in
      let one : bytes (concat_char 0 empty) ≡ 0 ∷ [] =
        X.bytes-concat_char 0 empty
          (rw (none_left, X.capacity-set_length 0 b) (omega (arith, start.0))) (omega arith)
        ∙ rw none_left refl in
      let two : bytes (concat_char 2 (concat_char 0 empty)) ≡ 0 ∷ 2 ∷ [] =
        X.bytes-concat_char 2 (concat_char 0 empty) (rw (one, room) (omega (arith, start.0)))
          (omega arith)
        ∙ rw one refl in
      subst (λ t. (bytes t ≡ 0 ∷ 2 ∷ []) × (capacity t ≡ capacity b)) start.1
        (two, X.capacity-concat_char 2 (concat_char 0 empty) ∙ room)

  -- A message, with what stands behind it in the buffer.
  abbrev pub Behind : Txt → List ℕ → List ℕ → Type 0
  Behind b body junk =
      bytes b ≡ high_byte (2 + length body) ∷ low_byte (2 + length body) ∷ (body ++ junk)

  helper_of_loop :
      (b x : Txt) (body junk : List ℕ) (skip expected : ℕ)
      → Behind b body junk
      → 0 < length body
      → 2 + length body + length junk < 0x1_0000
      → unpack_loop X b expected (2 + length body) skip 2 ≡ some (true, x)
      → binary_unpack_string_helper X b skip expected ≡ some (true, x)
  unfolding binary_unpack_string_helper base_len
  helper_of_loop b x body junk skip expected e some_field lt run =
      let total : length (bytes b) ≡ 2 + length body + length junk =
        rw e (omega (arith, length-append body junk)) in
      let base : char_at b 0 * 256 + char_at b 1 ≡ 2 + length body =
        rw
          (
            X.char_at_lem b 0 (rw total (omega arith)),
            X.char_at_lem b 1 (rw total (omega arith)),
            e,
          )
          (two_bytes (2 + length body) (omega arith)) in
      let cut : length (bytes b) % 0x1_0000 ≡ length (bytes b) = rw total (omega arith) in
      let n = length (bytes b) in
      rw
        (
          base,
          leb-true (2 + length body) n (rw total (omega arith)),
          cut,
          leb-true 2 n (rw total (omega arith)),
          ==_of_ne n 2 (rw total (omega arith)),
        )
        run

  -- Any text that begins with the message gives its fields.
  pub unpack-Behind :
      (m : Txt) (before : List (Field X)) (f : Field X) (after : List (Field X)) (junk : List ℕ)
      → Behind m (encode_all X (before ++ f ∷ after)) junk
      → 2 + size X (before ++ f ∷ after) + length junk < 0x1_0000
      → 2 + size X before + 3 < 256
      → (x : Txt) × (binary_unpack_string_helper X m (length before) f.content_type
          ≡ some (true, x))
        × (bytes x ≡ bytes f.payload)
  unpack-Behind m before f after junk framed lt near =
      let fields = before ++ f ∷ after in
      let split : encode_all X fields ≡ encode_all X before ++ (encode X f ++ encode_all X after) =
        encode_all-append before (f ∷ after) in
      let n = size-append before (f ∷ after) in
      let length_body = length-encode_all X fields in
      let front =
        high_byte (2 + length (encode_all X fields))
        ∷ low_byte (2 + length (encode_all X fields))
        ∷ [] in
      let whole : bytes m
          ≡ front ++ (encode_all X before ++ (encode X f ++ (encode_all X after ++ junk))) =
        framed
        ∙ ap (λ (l : List ℕ). front ++ (l ++ junk)) split
        ∙ ap (λ (l : List ℕ). front ++ l)
            (append_assoc (encode_all X before) (encode X f ++ encode_all X after) junk
              ∙ ap (λ (l : List ℕ). encode_all X before ++ l)
                  (append_assoc (encode X f) (encode_all X after) junk)) in
      let (x, run, same) =
        unpack_loop_lem X m (2 + length (encode_all X fields)) before f front
          (encode_all X after ++ junk) whole near (omega (arith, n))
          (omega (arith, n, length_body)) in
      (
        x,
        helper_of_loop m x (encode_all X fields) junk (length before) f.content_type framed
            (omega (arith, n, length_body)) (omega (arith, length_body)) run,
        same,
      )

  pub unpack_framed :
      (m : Txt) (before : List (Field X)) (f : Field X) (after : List (Field X))
      → IsFramed X m (encode_all X (before ++ f ∷ after))
      → 2 + size X (before ++ f ∷ after) < 0x1_0000
      → 2 + size X before + 3 < 256
      → (x : Txt) × (binary_unpack_string_helper X m (length before) f.content_type
          ≡ some (true, x))
        × (bytes x ≡ bytes f.payload)
  unpack_framed m before f after framed lt near =
      let body = encode_all X (before ++ f ∷ after) in
      unpack-Behind m before f after []
        (framed
          ∙ ap (λ l. high_byte (2 + length body) ∷ low_byte (2 + length body) ∷ l)
              (sym (append-nil body)))
        (omega arith) near

  -- When the reset of a buffer succeeds and the fields that are packed into it fit, every call
  -- returns 0, and unpacking behind the fields `before` returns 0 and the bytes of the next field.
  -- The headers up to that field have to stay below offset 256.
  pub binary_unpack_string_helper-pack_all :
      (b b' : Txt) (before : List (Field X)) (f : Field X) (after : List (Field X))
      → binary_coder_reset X b ≡ some b'
      → All (λ g. g.content_type < 256) (before ++ f ∷ after)
      → 2 + size X (before ++ f ∷ after) ≤ capacity b
      → 2 + size X (before ++ f ∷ after) < 0x1_0000
      → 2 + size X before + 3 < 256
      → (m x : Txt) × (pack_all X b' (before ++ f ∷ after) ≡ (true, m))
        × (binary_unpack_string_helper X m (length before) f.content_type ≡ some (true, x))
        × (bytes x ≡ bytes f.payload)
  binary_unpack_string_helper-pack_all b b' before f after start ct fits lt near =
      let fields = before ++ f ∷ after in
      let (framed, room) = binary_coder_reset-IsFramed b b' start in
      let (m, packed, framed') = pack_all-IsFramed b' [] fields framed ct (rw room fits) lt in
      let (x, run, same) = unpack_framed m before f after framed' lt near in
      (m, x, packed, run, same)
