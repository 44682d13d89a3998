-- ===== src/Nanopb/Decode/Runs.antt =====
-- The theorems on the decoders of numbers, at concrete inputs.
use social_timeline.Common.{ℕ, ◌-◌, ◌^◌, ◌≡◌, arith, false, none, List, [], ◌∷◌, ◌++◌, length}
use social_timeline.Nanopb.Outcome.{fail, first_error, integer_too_large}
use social_timeline.Nanopb.Varint.{zigzag}
use social_timeline.Nanopb.Varint.Bytes.{varint, length-varint}
use social_timeline.Nanopb.Field.{Field}
use social_timeline.Nanopb.Memory.{store, sign_extend}
use social_timeline.Nanopb.Heap.{Machine}
use social_timeline.Nanopb.Decode.Scalars.{pb_dec_varint, pb_dec_uvarint, pb_dec_svarint}
use social_timeline.Nanopb.Decode.Sizes.{one_byte, four_bytes}
use social_timeline.Nanopb.Decode.Values.{
  Decodes, decoding, pb_dec_varint-number, pb_dec_uvarint-number, pb_dec_svarint-number,
  pb_dec_uvarint_too_large,
}

abbrev S : Type 0
S = Unit {0}

abbrev empty : Machine
empty = record { memory = λ a. 0; blocks = []; misused = false }

abbrev int32 : Field
int32 = record {
  tag = 1;
  type = 0;
  data_offset = 0;
  size_offset = 0;
  data_size = 4;
  array_size = 0;
  ptr = 0;
}

abbrev uint8 : Field
uint8 = record {
  tag = 1;
  type = 1;
  data_offset = 0;
  size_offset = 0;
  data_size = 1;
  array_size = 0;
  ptr = 0;
}

-- The pattern of -2.
abbrev minus_two : ℕ
minus_two = 2 ^ 32 - 2

abbrev minus_two_bytes : List ℕ
minus_two_bytes = varint 9 (sign_extend 4 minus_two)

abbrev minus_two_zigzag : List ℕ
minus_two_zigzag = varint 9 (zigzag (sign_extend 4 minus_two))

pb_dec_varint-number_example :
    Decodes 4 64
      (sign_extend 4 minus_two)
      minus_two
      empty
      (decoding {S = S} (7 ∷ []) (12 - length minus_two_bytes) none empty)
      (pb_dec_varint int32 64 (decoding (minus_two_bytes ++ (7 ∷ [])) 12 none empty))
pb_dec_varint-number_example =
    pb_dec_varint-number int32 64 minus_two 12 (7 ∷ []) none empty four_bytes (omega arith)
      (omega (arith, (length-varint 9 (sign_extend 4 minus_two)).1))

pb_dec_svarint-number_example :
    Decodes 4 64
      (sign_extend 4 minus_two)
      minus_two
      empty
      (decoding {S = S} (7 ∷ []) (12 - length minus_two_zigzag) none empty)
      (pb_dec_svarint int32 64 (decoding (minus_two_zigzag ++ (7 ∷ [])) 12 none empty))
pb_dec_svarint-number_example =
    pb_dec_svarint-number int32 64 minus_two 12 (7 ∷ []) none empty four_bytes (omega arith)
      (omega (arith, (length-varint 9 (zigzag (sign_extend 4 minus_two))).1))

pb_dec_uvarint-number_example :
    Decodes 1 64 200 200 empty
      (decoding {S = S} (7 ∷ []) (12 - length (varint 9 200)) none empty)
      (pb_dec_uvarint uint8 64 (decoding (varint 9 200 ++ (7 ∷ [])) 12 none empty))
pb_dec_uvarint-number_example =
    pb_dec_uvarint-number uint8 64 200 12 (7 ∷ []) none empty one_byte (omega arith)
      (omega (arith, (length-varint 9 200).1))

pb_dec_uvarint_too_large_example :
    pb_dec_uvarint uint8 64 (decoding {S = S} (varint 9 300 ++ (7 ∷ [])) 12 none empty)
    ≡ fail (
        decoding
          (7 ∷ [])
          (12 - length (varint 9 300))
          (first_error none integer_too_large)
          (record empty { memory = store empty.memory 1 64 300 }))
pb_dec_uvarint_too_large_example =
    pb_dec_uvarint_too_large uint8 64 300 12 (7 ∷ []) none empty one_byte (omega arith)
      (omega arith) (omega (arith, (length-varint 9 300).1))
