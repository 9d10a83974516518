-- ===== src/AsyncDb/Wire.antt =====
-- The fields of a message as bytes: what the requests read by index is what the binary coder
-- unpacks. `txt` takes a text to the one that is packed.
use nginz.Prelude.{
  ℕ, suc, ◌+◌, ◌≤◌, ◌<◌, ◌≡◌, refl, sym, ap, true, some, List, [], ◌∷◌, ◌++◌, arith, length, All,
}
use mathlib.Core.Path.{subst}
use nginz.Xtring.{Xtring}
use nginz.BinaryCoder.{
  int_bytes, content_integer, content_string, binary_coder_reset, binary_unpack_int,
  binary_unpack_string_helper,
}
use nginz.BinaryCoder.Integers.{int_value, binary_unpack_int-pack_all}
use nginz.BinaryCoder.Layout.{size, pack_all}
use nginz.BinaryCoder.Message.{binary_unpack_string_helper-pack_all}
use nginz.BinaryCoder.Layout
use nginz.AsyncDb.{Aroop, Field, int, text, unpack_int, unpack_string}

module _ (A : Aroop) (X : Xtring) (txt : A.Txt → X.Txt) where
  open X use {bytes, capacity, of_bytes}

  abbrev pub wire_field : Field A → Layout.Field X
  wire_field (int w) = record { content_type = content_integer; payload = of_bytes (int_bytes w) }
  wire_field (text x) = record { content_type = content_string; payload = txt x }

  abbrev pub wire : List (Field A) → List (Layout.Field X)
  wire [] = []
  wire (f ∷ fs) = wire_field f ∷ wire fs

  wire-append : (fs gs : List (Field A)) → wire (fs ++ gs) ≡ wire fs ++ wire gs
  wire-append [] gs = refl
  wire-append (f ∷ fs) gs = ap (λ (l : List (Layout.Field X)). wire_field f ∷ l) (wire-append fs gs)

  length-wire : (fs : List (Field A)) → length (wire fs) ≡ length fs
  length-wire [] = refl
  length-wire (f ∷ fs) = ap suc (length-wire fs)

  wire_small : (fs : List (Field A)) → All (λ (g : Layout.Field X). g.content_type < 256) (wire fs)
  wire_small [] = tt
  wire_small (int w ∷ fs) = (omega arith, wire_small fs)
  wire_small (text x ∷ fs) = (omega arith, wire_small fs)

  unpack_int-append :
      (before : List (Field A)) (w : ℕ) (after : List (Field A))
      → unpack_int A (before ++ int w ∷ after) (length before) ≡ some (int_value w)
  unpack_int-append [] w after = refl
  unpack_int-append (int v ∷ before) w after = unpack_int-append before w after
  unpack_int-append (text x ∷ before) w after = unpack_int-append before w after

  unpack_string-append :
      (before : List (Field A)) (x : A.Txt) (after : List (Field A))
      → unpack_string A (before ++ text x ∷ after) (length before) ≡ some x
  unpack_string-append [] x after = refl
  unpack_string-append (int v ∷ before) x after = unpack_string-append before x after
  unpack_string-append (text y ∷ before) x after = unpack_string-append before x after

  -- A message that fits and is packed field by field into an empty buffer: reading an integer of
  -- it by its index, whose header is below offset 256, gives what the coder unpacks there.
  pub unpack_int-pack_all :
      (b b' : X.Txt) (before : List (Field A)) (w : ℕ) (after : List (Field A)) (old : ℕ)
      → w < 0x1_0000_0000
      → binary_coder_reset X b ≡ some b'
      → 2 + size X (wire (before ++ int w ∷ after)) ≤ capacity b
      → 2 + size X (wire (before ++ int w ∷ after)) < 0x1_0000
      → 2 + size X (wire before) + 3 < 256
      → (m : X.Txt) × (v : ℕ) × (pack_all X b' (wire (before ++ int w ∷ after)) ≡ (true, m))
        × (unpack_int A (before ++ int w ∷ after) (length before) ≡ some v)
        × (binary_unpack_int X m (length before) old ≡ some (true, v))
  unpack_int-pack_all b b' before w after old small start fits lt near =
      let split = wire-append before (int w ∷ after) in
      let (m, packed, run) =
        binary_unpack_int-pack_all X b b' (wire before) w (wire after) old small start
          (subst (All (λ (g : Layout.Field X). g.content_type < 256)) split
            (wire_small (before ++ int w ∷ after)))
          (rw (sym split) fits) (rw (sym split) lt) near in
      (
        m,
        int_value w,
        rw split packed,
        unpack_int-append before w after,
        rw (sym (length-wire before)) run,
      )

  -- The same for a text: the coder unpacks the bytes of the text that the index gives.
  pub unpack_string-pack_all :
      (b b' : X.Txt) (before : List (Field A)) (x : A.Txt) (after : List (Field A))
      → binary_coder_reset X b ≡ some b'
      → 2 + size X (wire (before ++ text x ∷ after)) ≤ capacity b
      → 2 + size X (wire (before ++ text x ∷ after)) < 0x1_0000
      → 2 + size X (wire before) + 3 < 256
      → (m y : X.Txt) × (z : A.Txt) × (pack_all X b' (wire (before ++ text x ∷ after)) ≡ (true, m))
        × (unpack_string A (before ++ text x ∷ after) (length before) ≡ some z)
        × (binary_unpack_string_helper X m (length before) content_string ≡ some (true, y))
        × (bytes y ≡ bytes (txt z))
  unpack_string-pack_all b b' before x after start fits lt near =
      let split = wire-append before (text x ∷ after) in
      let (m, y, packed, run, same) =
        binary_unpack_string_helper-pack_all X b b' (wire before) (wire_field (text x)) (wire after)
          start
          (subst (All (λ (g : Layout.Field X). g.content_type < 256)) split
            (wire_small (before ++ text x ∷ after)))
          (rw (sym split) fits) (rw (sym split) lt) near in
      (
        m,
        y,
        x,
        rw split packed,
        unpack_string-append before x after,
        rw (sym (length-wire before)) run,
        same,
      )
