-- ===== src/BinaryCoder.antt =====
-- base/src/binary_coder_extended.c: messages of tagged strings and integers, each behind a header
-- of three bytes, in a buffer that starts with its length in two bytes.
pub mod Layout
pub mod RoundTrip
pub mod Message
pub mod Integers
pub mod Framed
mod Tests
use nginz.Prelude.{
  ℕ, zero, suc, ◌+◌, ◌*◌, ◌/◌, ◌%◌, Bool, true, false, not, ◌&&◌, Option, none, some, List, [], ◌∷◌,
  ltb, leb, ◌==◌, if◌then◌else◌, assert, ◌>>=◌, ◌>>◌, length,
}
use nginz.Xtring.{Xtring}

-- NGINZ_BINARY_CONTENT_STRING and NGINZ_BINARY_CONTENT_INTEGER
abbrev pub content_string : ℕ
content_string = 1

abbrev pub content_integer : ℕ
content_integer = 2

abbrev pub binary_coder_header_len : ℕ
binary_coder_header_len = 3

-- The two bytes of a 16-bit length.
abbrev pub high_byte : ℕ → ℕ
high_byte len = len / 256 % 256

abbrev pub low_byte : ℕ → ℕ
low_byte len = len % 256

-- An `int` is its 32-bit pattern. The test `intval >= 0xFFFF` is signed.
unfoldable pub int_bytes : ℕ → List ℕ
int_bytes intval =
    if leb 0xffff intval && ltb intval 0x8000_0000
    then (intval / 0x100_0000 % 256)
      ∷ (intval / 0x1_0000 % 256)
      ∷ (intval / 256 % 256)
      ∷ (intval % 256)
      ∷ []
    else (intval / 256 % 256) ∷ (intval % 256) ∷ []

module _ (X : Xtring) where
  open X use {
    Txt, bytes, capacity, char_at, memory, set_length, set_char_at, concat_char, concat, shift,
    destroyed, of_bytes,
  }

  unfoldable pub binary_coder_reset : Txt → Option Txt
  binary_coder_reset buffer =
      let b = concat_char 2 (concat_char 0 (set_length 0 buffer)) in
      do assert (leb 256 (capacity b)); some b

  -- `binary_set_header` and the three characters that are added for it.
  add_header : ℕ → ℕ → Txt → Txt
  add_header content_type len b =
      concat_char (low_byte len) (concat_char (high_byte len) (concat_char content_type b))

  update_base : Txt → Txt
  update_base b =
      let blen = length (bytes b) % 0x1_0000 in
      set_char_at 1 (low_byte blen) (set_char_at 0 (high_byte blen) b)

  -- `true` is the result 0; with -1 the buffer is as before.
  pub binary_pack_string_helper : Txt → Txt → ℕ → Bool × Txt
  unfolding add_header update_base
  binary_pack_string_helper buffer x content_type =
      let blen = length (bytes buffer) % 0x1_0000 in
      if ltb (capacity buffer) (length (bytes x) + blen + binary_coder_header_len)
      then (false, buffer)
      else (
        true,
        update_base (concat (add_header content_type (length (bytes x) % 0x1_0000) buffer) x),
      )

  pub binary_pack_int : Txt → ℕ → Bool × Txt
  unfolding int_bytes
  binary_pack_int buffer intval =
      binary_pack_string_helper buffer (of_bytes (int_bytes intval)) content_integer

  pub binary_pack_string : Txt → Txt → Bool × Txt
  binary_pack_string buffer x = binary_pack_string_helper buffer x content_string

  pub binary_coder_reset_for_pid : Txt → ℕ → Option Txt
  binary_coder_reset_for_pid buffer srcpid = do
    assert (ltb srcpid 0x8000_0000)
    b ← binary_coder_reset buffer
    some (binary_pack_int b srcpid).1

  -- The length that `binary_get_header` reads behind the content type at `pos`.
  header_len : Txt → ℕ → ℕ
  header_len b pos = memory b (pos + 1) * 256 + memory b (pos + 2)

  -- The `do` loop. `pos` is an 8-bit `mychar_t`. `some (true, x)` is the result 0 with the output
  -- `x`, `some (false, x)` is -1, and `none` is a failed assertion.
  pub unpack_loop : Txt → ℕ → ℕ → ℕ → ℕ → Option (Bool × Txt)
  unpack_loop b expected blen zero pos =
      let nlen = header_len b pos in
      if ltb blen (pos + nlen)
      then some (false, destroyed)
      else if not (memory b pos == expected)
      then none
      else some (true, set_length nlen (shift ((pos + binary_coder_header_len) % 256) b))
  unpack_loop b expected blen (suc skip) pos =
      let nlen = header_len b pos in
      let pos' = (pos + (nlen + binary_coder_header_len)) % 256 in
      let next = unpack_loop b expected blen skip pos' in
      if ltb blen (pos + nlen)
      then some (false, destroyed)
      else if ltb pos' blen
      then next
      else some (true, destroyed)

  unfoldable pub base_len : Txt → ℕ
  base_len b = char_at b 0 * 256 + char_at b 1

  pub binary_unpack_string_helper : Txt → ℕ → ℕ → Option (Bool × Txt)
  unfolding header_len unpack_loop base_len
  binary_unpack_string_helper b skip expected = do
    assert (leb 2 (length (bytes b) % 0x1_0000))
    if length (bytes b) % 0x1_0000 == 2 then some (true, destroyed) else do
      assert (leb (base_len b) (length (bytes b)))
      unpack_loop b expected (base_len b) skip 2

  unfoldable pub binary_unpack_string : Txt → ℕ → Option (Bool × Txt)
  binary_unpack_string b skip = binary_unpack_string_helper b skip content_string

  -- The bytes of the field, the first one highest; a field of more than four gives its first three.
  int_of : Txt → ℕ
  int_of x =
      let len = length (bytes x) in
      let b1 = if leb 1 len then memory x 0 else 0 in
      let b2 = if leb 2 len then b1 * 256 + memory x 1 else b1 in
      let b3 = if leb 3 len then b2 * 256 + memory x 2 else b2 in
      if len == 4 then b3 * 256 + memory x 3 else b3

  -- On -1 the output keeps its value.
  int_result : ℕ → Bool × Txt → Bool × ℕ
  unfolding int_of
  int_result intval (false, x) = (false, intval)
  int_result intval (true, x) = (true, int_of x)

  pub binary_unpack_int : Txt → ℕ → ℕ → Option (Bool × ℕ)
  unfolding int_result
  binary_unpack_int b skip intval = do
    r ← binary_unpack_string_helper b skip content_integer
    some (int_result intval r)

  -- The length that is asserted is cut to eight bits.
  pub binary_coder_fixup : Txt → Option Txt
  unfolding base_len
  binary_coder_fixup b = do
    assert (leb 2 (length (bytes b) % 256))
    some (if base_len b == length (bytes b) then b else set_length (base_len b) b)
