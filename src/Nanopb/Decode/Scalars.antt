-- ===== src/Nanopb/Decode/Scalars.antt =====
-- The field decoders of pb_decode.c for numbers.
use social_timeline.Common.{ℕ, ◌*◌, ◌%◌, ◌^◌, ◌==◌, if◌then◌else◌, u32}
use social_timeline.Nanopb.Outcome.{invalid_data_size, integer_too_large, Run, pure, ◌>>=◌, ◌>>◌}
use social_timeline.Nanopb.Varint.{pb_decode_varint, pb_decode_svarint}
use social_timeline.Nanopb.Wire.{pb_decode_fixed32, pb_decode_fixed64}
use social_timeline.Nanopb.Memory.{sign_extend}
use social_timeline.Nanopb.Encode.Scalars.{integer_size}
use social_timeline.Nanopb.Decode.State.{Decoding, FieldDecoder, on_stream, refuse, assign}

-- `svalue` of `pb_dec_varint`: a field of at most 32 bits gets the value as an `int32_t`.
unfoldable pub as_signed : ℕ → ℕ → ℕ
as_signed size value = if size == 8 then value else sign_extend 4 (u32 value)

-- The assignment of a signed value, and the test of `clamped` against it.
unfoldable pub assign_signed : {S : Type 0} → ℕ → ℕ → ℕ → Run (Decoding S) (Unit {0})
assign_signed size dest svalue =
    if integer_size size
    then assign size dest svalue
      >> (if sign_extend size (svalue % 2 ^ (8 * size)) == svalue
          then pure tt
          else refuse integer_too_large)
    else refuse invalid_data_size

unfoldable pub assign_unsigned : {S : Type 0} → ℕ → ℕ → ℕ → Run (Decoding S) (Unit {0})
assign_unsigned size dest value =
    if integer_size size
    then assign size dest value
      >> (if value % 2 ^ (8 * size) == value then pure tt else refuse integer_too_large)
    else refuse invalid_data_size

module _ {S : Type 0} where
  unfoldable pub pb_dec_varint : FieldDecoder S
  pb_dec_varint field dest = on_stream pb_decode_varint >>= λ value.
      assign_signed field.data_size dest (as_signed field.data_size value)

  unfoldable pub pb_dec_uvarint : FieldDecoder S
  pb_dec_uvarint field dest =
      on_stream pb_decode_varint >>= λ value. assign_unsigned field.data_size dest value

  unfoldable pub pb_dec_svarint : FieldDecoder S
  pb_dec_svarint field dest =
      on_stream pb_decode_svarint >>= λ value. assign_signed field.data_size dest value

  unfoldable pub pb_dec_fixed32 : FieldDecoder S
  pb_dec_fixed32 field dest = on_stream pb_decode_fixed32 >>= λ value. assign 4 dest value

  unfoldable pub pb_dec_fixed64 : FieldDecoder S
  pb_dec_fixed64 field dest = on_stream pb_decode_fixed64 >>= λ value. assign 8 dest value
