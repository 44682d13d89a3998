-- ===== src/Nanopb/Decode/Takes/Values.antt =====
-- The decoders of single values of pb_decode.c, and `allocate_field`, never add to what the stream has
-- left.
use social_timeline.Common.{ℕ, zero, suc, ◌+◌, ◌≤◌, ◌≡◌, refl, ◌*◌, u64}
use social_timeline.Common.{List, ◌==◌, ◌||◌}
use native.Mathlib.Nat.{le_refl, le_trans}
use social_timeline.Nanopb.Outcome.{Errmsg, Outcome, ok, fail, Run, left}
use social_timeline.Nanopb.Outcome.Takes.{
  Takes, takes, at_most, Takes-bind, Takes-then, Takes-if, Takes-either, Takes-pure,
}
use social_timeline.Nanopb.Wire.Takes.{
  pb_decode_varint-Takes, pb_decode_svarint-Takes, pb_decode_varint32-Takes,
  pb_decode_fixed32-Takes, pb_decode_fixed64-Takes, pb_make_string_substream-Takes,
}
use social_timeline.Nanopb.Field.{
  Field, ltype_varint, ltype_uvarint, ltype_svarint, ltype_fixed32, ltype_fixed64, ltype_bytes,
  ltype_string, ltype_submessage, ltype_fixed_length_bytes,
}
use social_timeline.Nanopb.Memory.{load_pointer}
use social_timeline.Nanopb.Heap.{Machine, Placement, pb_realloc}
use social_timeline.Nanopb.Decode.State.{Decoding, DecoderProgram, assign, read_into}
use social_timeline.Nanopb.Decode.Scalars.{
  assign_signed, assign_unsigned, pb_dec_varint, pb_dec_uvarint, pb_dec_svarint, pb_dec_fixed32,
  pb_dec_fixed64,
}
use social_timeline.Nanopb.Decode.Allocate.{keep_block, overflows, allocate_field}
use social_timeline.Nanopb.Decode.Strings.{
  write_behind, read_string, read_bytes, room_for, pb_dec_bytes, pb_dec_string,
  pb_dec_fixed_length_bytes,
}
use social_timeline.Nanopb.Decode.Nested.{call_null, pb_dec_submessage, decoder_for}
use social_timeline.Nanopb.Decode.Takes.{
  same_le, remaining, on_stream-Takes, refuse-Takes, write_memory-Takes, assign-Takes, reads-Takes,
  read_into-Takes, in_substream-Takes,
}

module _ {S : Type 0} where
  assign_signed-Takes : (size dest v : ℕ) → Takes (remaining {S = S}) (assign_signed size dest v)
  unfolding assign_signed
  assign_signed-Takes size dest v =
      Takes-if _
        (Takes-then (assign-Takes size dest v)
          (Takes-if _ (Takes-pure tt) (refuse-Takes Errmsg.integer_too_large)))
        (refuse-Takes Errmsg.invalid_data_size)

  assign_unsigned-Takes :
      (size dest v : ℕ) → Takes (remaining {S = S}) (assign_unsigned size dest v)
  unfolding assign_unsigned
  assign_unsigned-Takes size dest v =
      Takes-if _
        (Takes-then (assign-Takes size dest v)
          (Takes-if _ (Takes-pure tt) (refuse-Takes Errmsg.integer_too_large)))
        (refuse-Takes Errmsg.invalid_data_size)

  keep_block-at_most :
      (n p_data : ℕ) (d : Decoding S) (r : ℕ × Machine)
      → remaining d ≤ n
      → remaining (left (keep_block p_data d r)) ≤ n
  unfolding keep_block assign
  keep_block-at_most n p_data d (zero, x) h =
      le_trans
        (at_most (refuse-Takes {A = Unit {0}} Errmsg.realloc_failed) (record d { machine = x })) h
  keep_block-at_most n p_data d (suc p, x) h = h

  pub allocate_field-Takes :
      (place : Placement) (p_data data_size array_size : ℕ)
      → Takes (remaining {S = S}) (allocate_field place p_data data_size array_size)
  unfolding allocate_field
  allocate_field-Takes place p_data data_size array_size =
      Takes-either ((data_size == 0) || (array_size == 0)) (refuse-Takes Errmsg.invalid_size) (
        Takes-either (overflows data_size array_size) (refuse-Takes Errmsg.size_too_large) (
          takes λ d.
            keep_block-at_most (remaining d) p_data d
              (pb_realloc place (load_pointer d.machine.memory p_data)
                (u64 (array_size * data_size)) d.machine)
              (le_refl (remaining d))))

  room_for-Takes :
      (place : Placement) (overflow : Run (Decoding S) ℕ) (field : Field) (alloc_size dest : ℕ)
      → Takes (remaining {S = S}) overflow
      → Takes (remaining {S = S}) (room_for place overflow field alloc_size dest)
  unfolding room_for
  room_for-Takes place overflow field alloc_size dest h =
      Takes-if _ (Takes-then (allocate_field-Takes place dest alloc_size 1) (reads-Takes _))
        (Takes-if _ h (Takes-pure dest))

  write_behind-left :
      (address b : ℕ) (o : Outcome (Decoding S) (Unit {0}))
      → remaining (left (write_behind address b o)) ≡ remaining (left o)
  unfolding write_behind
  write_behind-left address b (ok _ d) = refl
  write_behind-left address b (fail d) = refl

  read_string-Takes : (size dest : ℕ) → Takes (remaining {S = S}) (read_string size dest)
  unfolding read_string
  read_string-Takes size dest = takes λ d.
      same_le (write_behind-left (dest + size) 0 (read_into dest size d))
        (at_most (read_into-Takes dest size) d)

  pb_dec_bytes-Takes :
      (place : Placement) (field : Field) (dest : ℕ)
      → Takes (remaining {S = S}) (pb_dec_bytes place field dest)
  unfolding pb_dec_bytes read_bytes
  pb_dec_bytes-Takes place field dest =
      Takes-bind (on_stream-Takes pb_decode_varint32-Takes) λ size.
        Takes-if _ (refuse-Takes Errmsg.bytes_overflow) (
          Takes-if _ (refuse-Takes Errmsg.size_too_large) (
            Takes-bind (room_for-Takes place _ field _ dest (refuse-Takes Errmsg.bytes_overflow))
              λ bdest. Takes-then (assign-Takes 4 bdest size) (read_into-Takes _ size)))

  pb_dec_string-Takes :
      (place : Placement) (field : Field) (dest : ℕ)
      → Takes (remaining {S = S}) (pb_dec_string place field dest)
  unfolding pb_dec_string
  pb_dec_string-Takes place field dest =
      Takes-bind (on_stream-Takes pb_decode_varint32-Takes) λ size.
        Takes-if _ (refuse-Takes Errmsg.size_too_large) (
          Takes-bind (room_for-Takes place _ field _ dest (refuse-Takes Errmsg.string_overflow))
            (read_string-Takes size))

  pb_dec_fixed_length_bytes-Takes :
      (field : Field) (dest : ℕ) → Takes (remaining {S = S}) (pb_dec_fixed_length_bytes field dest)
  unfolding pb_dec_fixed_length_bytes
  pb_dec_fixed_length_bytes-Takes field dest =
      Takes-bind (on_stream-Takes pb_decode_varint32-Takes) λ size.
        Takes-if _ (refuse-Takes Errmsg.bytes_overflow) (
          Takes-if _ (write_memory-Takes _) (
            Takes-if _ (refuse-Takes Errmsg.incorrect_fixed_length)
              (read_into-Takes dest field.data_size)))

  pb_dec_varint-Takes :
      (field : Field) (dest : ℕ) → Takes (remaining {S = S}) (pb_dec_varint field dest)
  unfolding pb_dec_varint
  pb_dec_varint-Takes field dest =
      Takes-bind (on_stream-Takes pb_decode_varint-Takes)
        (λ v. assign_signed-Takes field.data_size dest _)

  pb_dec_uvarint-Takes :
      (field : Field) (dest : ℕ) → Takes (remaining {S = S}) (pb_dec_uvarint field dest)
  unfolding pb_dec_uvarint
  pb_dec_uvarint-Takes field dest =
      Takes-bind (on_stream-Takes pb_decode_varint-Takes)
        (assign_unsigned-Takes field.data_size dest)

  pb_dec_svarint-Takes :
      (field : Field) (dest : ℕ) → Takes (remaining {S = S}) (pb_dec_svarint field dest)
  unfolding pb_dec_svarint
  pb_dec_svarint-Takes field dest =
      Takes-bind (on_stream-Takes pb_decode_svarint-Takes)
        (assign_signed-Takes field.data_size dest)

  pb_dec_fixed32-Takes :
      (field : Field) (dest : ℕ) → Takes (remaining {S = S}) (pb_dec_fixed32 field dest)
  unfolding pb_dec_fixed32
  pb_dec_fixed32-Takes field dest =
      Takes-bind (on_stream-Takes pb_decode_fixed32-Takes) (assign-Takes 4 dest)

  pb_dec_fixed64-Takes :
      (field : Field) (dest : ℕ) → Takes (remaining {S = S}) (pb_dec_fixed64 field dest)
  unfolding pb_dec_fixed64
  pb_dec_fixed64-Takes field dest =
      Takes-bind (on_stream-Takes pb_decode_fixed64-Takes) (assign-Takes 8 dest)

  call_null-Takes : (field : Field) (dest : ℕ) → Takes (remaining {S = S}) (call_null field dest)
  unfolding call_null
  call_null-Takes field dest = takes λ d. le_refl (remaining d)

  module _ (program : DecoderProgram S) (depth : ℕ)
      (noinit : List Field → ℕ → Run (Decoding S) (Unit {0})) where
    pb_dec_submessage-Takes :
        (field : Field) (dest : ℕ)
        → Takes (remaining {S = S}) (pb_dec_submessage program depth noinit field dest)
    unfolding pb_dec_submessage
    pb_dec_submessage-Takes field dest =
        Takes-bind (on_stream-Takes pb_make_string_substream-Takes) λ substream.
          Takes-if _ (refuse-Takes Errmsg.invalid_field_descriptor) (in_substream-Takes _ substream)

    pub decoder_for-Takes :
        (t : ℕ) (field : Field) (dest : ℕ)
        → Takes (remaining {S = S}) (decoder_for program depth noinit t field dest)
    unfolding decoder_for
    decoder_for-Takes t field dest = Takes-if (t == ltype_varint) (pb_dec_varint-Takes field dest) (
        Takes-if (t == ltype_uvarint) (pb_dec_uvarint-Takes field dest) (
          Takes-if (t == ltype_svarint) (pb_dec_svarint-Takes field dest) (
            Takes-if (t == ltype_fixed32) (pb_dec_fixed32-Takes field dest) (
              Takes-if (t == ltype_fixed64) (pb_dec_fixed64-Takes field dest) (
                Takes-if (t == ltype_bytes) (pb_dec_bytes-Takes program.place field dest) (
                  Takes-if (t == ltype_string) (pb_dec_string-Takes program.place field dest) (
                    Takes-if (t == ltype_submessage) (pb_dec_submessage-Takes field dest) (
                      Takes-if (t == ltype_fixed_length_bytes)
                        (pb_dec_fixed_length_bytes-Takes field dest)
                        (call_null-Takes field dest)))))))))
