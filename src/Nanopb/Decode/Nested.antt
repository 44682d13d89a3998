-- ===== src/Nanopb/Decode/Nested.antt =====
-- `pb_decode`, `pb_dec_submessage` and PB_DECODERS of pb_decode.c, over the `pb_decode_noinit` of the
-- messages that they decode.
use social_timeline.Common.{ℕ, true, List, ◌==◌, if◌then◌else◌}
use social_timeline.Nanopb.Outcome.{invalid_field_descriptor, Outcome, ok, fail, Run, ◌>>=◌}
use social_timeline.Nanopb.Wire.{pb_make_string_substream}
use social_timeline.Nanopb.Field.{
  Field, htype, ltype_varint, ltype_uvarint, ltype_svarint, ltype_fixed32, ltype_fixed64,
  ltype_bytes, ltype_string, ltype_submessage, ltype_fixed_length_bytes, htype_repeated,
}
use social_timeline.Nanopb.Heap.{Machine}
use social_timeline.Nanopb.Decode.State.{
  Decoding, DecoderProgram, FieldDecoder, on_stream, refuse, write_memory, in_substream,
}
use social_timeline.Nanopb.Decode.Default.{pb_message_set_to_defaults}
use social_timeline.Nanopb.Decode.Release.{pb_release}
use social_timeline.Nanopb.Decode.Scalars.{
  pb_dec_varint, pb_dec_uvarint, pb_dec_svarint, pb_dec_fixed32, pb_dec_fixed64,
}
use social_timeline.Nanopb.Decode.Strings.{pb_dec_bytes, pb_dec_string, pb_dec_fixed_length_bytes}

-- The behaviour of the call of a null pointer is open in C.
unfoldable pub call_null : {S : Type 0} → FieldDecoder S
call_null field dest d = fail (record d { machine = record d.machine { misused = true } })

-- `if (!status) pb_release(fields, dest_struct);`
unfoldable pub release_failed :
    {S : Type 0}
    → (Machine → Machine)
    → Outcome (Decoding S) (Unit {0})
    → Outcome (Decoding S) (Unit {0})
release_failed release (ok _ d) = ok tt d
release_failed release (fail d) = fail (record d { machine = release d.machine })

module _ {S : Type 0} (program : DecoderProgram S) (depth : ℕ)
    (noinit : List Field → ℕ → Run (Decoding S) (Unit {0})) where
  unfoldable pub decode_message : List Field → ℕ → Run (Decoding S) (Unit {0})
  unfolding release_failed
  decode_message fields dest_struct d =
      release_failed (pb_release program.descriptors depth fields dest_struct) (
        (write_memory (pb_message_set_to_defaults program.descriptors depth fields dest_struct)
            >>= λ _. noinit fields dest_struct)
          d)

  -- The body of `pb_dec_submessage` behind the substream.
  unfoldable pub pb_dec_submessage : FieldDecoder S
  unfolding decode_message
  pb_dec_submessage field dest = on_stream pb_make_string_substream >>= λ substream.
      if field.ptr == 0
      then refuse invalid_field_descriptor
      else in_substream
          (if htype field.type == htype_repeated
            then decode_message (program.descriptors field.ptr) dest
            else noinit (program.descriptors field.ptr) dest)
          substream

  -- PB_DECODERS: the entry of extensions is null, and other types are outside the table.
  unfoldable pub decoder_for : ℕ → FieldDecoder S
  decoder_for t field dest =
      if t == ltype_varint
      then pb_dec_varint field dest
      else if t == ltype_uvarint
      then pb_dec_uvarint field dest
      else if t == ltype_svarint
      then pb_dec_svarint field dest
      else if t == ltype_fixed32
      then pb_dec_fixed32 field dest
      else if t == ltype_fixed64
      then pb_dec_fixed64 field dest
      else if t == ltype_bytes
      then pb_dec_bytes program.place field dest
      else if t == ltype_string
      then pb_dec_string program.place field dest
      else if t == ltype_submessage
      then pb_dec_submessage field dest
      else if t == ltype_fixed_length_bytes
      then pb_dec_fixed_length_bytes field dest
      else call_null field dest
