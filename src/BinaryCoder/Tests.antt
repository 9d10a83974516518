-- ===== src/BinaryCoder/Tests.antt =====
-- Messages of the binary coder on small examples.
use nginz.Prelude.{◌≡◌, refl, true, some, [], ◌∷◌, arith}
use nginz.Xtring.Plain.{PlainTxt, plain, plain_xtring}
use nginz.BinaryCoder.{
  binary_coder_reset, binary_unpack_string_helper, binary_unpack_int, int_bytes,
}
use nginz.BinaryCoder.Layout.{Field, pack_all}
use nginz.BinaryCoder.Message.{binary_unpack_string_helper-pack_all}
use nginz.BinaryCoder.Integers.{binary_unpack_int-pack_all}

abbrev buffer : PlainTxt
buffer = plain [] 256

abbrev empty_message : PlainTxt
empty_message = plain (0 ∷ 2 ∷ []) 256

-- "hi"
abbrev greeting : Field plain_xtring
greeting = record { content_type = 1; payload = plain (104 ∷ 105 ∷ []) 32 }

abbrev number : Field plain_xtring
number = record { content_type = 2; payload = plain (int_bytes 70000) 32 }

reset : binary_coder_reset plain_xtring buffer ≡ some empty_message
unfolding binary_coder_reset
reset = refl

binary_unpack_string_helper_example :
    (m x : PlainTxt) × (pack_all plain_xtring empty_message (number ∷ greeting ∷ []) ≡ (true, m))
    × (binary_unpack_string_helper plain_xtring m 1 1 ≡ some (true, x))
    × (x.content ≡ 104 ∷ 105 ∷ [])
unfolding int_bytes
binary_unpack_string_helper_example =
    binary_unpack_string_helper-pack_all plain_xtring buffer empty_message (number ∷ []) greeting []
      reset (omega arith, (omega arith, tt)) (omega arith) (omega arith) (omega arith)

binary_unpack_int_example :
    (m : PlainTxt) × (pack_all plain_xtring empty_message (greeting ∷ number ∷ []) ≡ (true, m))
    × (binary_unpack_int plain_xtring m 1 0 ≡ some (true, 70000))
unfolding int_bytes
binary_unpack_int_example =
    binary_unpack_int-pack_all plain_xtring buffer empty_message (greeting ∷ []) 70000 [] 0
      (omega arith) reset (omega arith, (omega arith, tt)) (omega arith) (omega arith) (omega arith)
