-- ===== src/Nanopb/Decode/Strings.antt =====
-- The field decoders of pb_decode.c for bytes, strings and bytes of a fixed length.
pub mod Bytes
use social_timeline.Common.{ℕ, zero, suc, ◌+◌, ltb, ◌==◌, not, if◌then◌else◌, u32, u64}
use social_timeline.Nanopb.Outcome.{
  bytes_overflow, size_too_large, string_overflow, incorrect_fixed_length, Run, Outcome, ok, fail,
  pure, ◌>>=◌, ◌>>◌,
}
use social_timeline.Nanopb.Varint.{pb_decode_varint32}
use social_timeline.Nanopb.Field.{Field, atype, atype_pointer, pb_size_max}
use social_timeline.Nanopb.Memory.{load_pointer, store_byte, fill, array_bytes}
use social_timeline.Nanopb.Heap.{Placement}
use social_timeline.Nanopb.Decode.State.{
  Decoding, FieldDecoder, on_stream, refuse, write_memory, assign, reads, read_into,
}
use social_timeline.Nanopb.Decode.Allocate.{allocate_field}

-- A byte is written whether the call before has succeeded or not.
unfoldable pub write_behind :
    {S : Type 0} → ℕ → ℕ → Outcome (Decoding S) (Unit {0}) → Outcome (Decoding S) (Unit {0})
write_behind address b (ok _ d) =
    ok tt
      (record d { machine = record d.machine { memory = store_byte d.machine.memory address b } })
write_behind address b (fail d) =
    fail
      (record d { machine = record d.machine { memory = store_byte d.machine.memory address b } })

-- The bytes of the string, and the terminator behind them.
unfoldable pub read_string : {S : Type 0} → ℕ → ℕ → Run (Decoding S) (Unit {0})
unfolding write_behind
read_string size dest d = write_behind (dest + size) 0 (read_into dest size d)

unfoldable pub read_bytes : {S : Type 0} → ℕ → ℕ → Run (Decoding S) (Unit {0})
read_bytes size bdest = assign 4 bdest size >> read_into (array_bytes bdest) size

-- Where `alloc_size` bytes are stored: in the structure, if it has room, or in a block for them.
unfoldable pub room_for :
    {S : Type 0} → Placement → Run (Decoding S) ℕ → Field → ℕ → ℕ → Run (Decoding S) ℕ
room_for place overflow field alloc_size dest =
    if atype field.type == atype_pointer
    then allocate_field place dest alloc_size 1 >> reads (λ m. load_pointer m dest)
    else if ltb field.data_size alloc_size
    then overflow
    else pure dest

module _ {S : Type 0} (place : Placement) where
  -- `size` is at most PB_SIZE_MAX, and PB_BYTES_ARRAY_T_ALLOCSIZE adds the 4 bytes of the size.
  unfoldable pub pb_dec_bytes : FieldDecoder S
  unfolding room_for read_bytes
  pb_dec_bytes field dest = on_stream pb_decode_varint32 >>= λ size.
      if ltb pb_size_max size
      then refuse bytes_overflow
      else if ltb (u64 (size + 4)) size
      then refuse size_too_large
      else room_for place (refuse bytes_overflow) field (u64 (size + 4)) dest >>= read_bytes size

  -- `size + 1` is a sum of 32 bits.
  unfoldable pub pb_dec_string : FieldDecoder S
  unfolding room_for read_string
  pb_dec_string field dest = on_stream pb_decode_varint32 >>= λ size.
      if ltb (u32 (suc size)) size
      then refuse size_too_large
      else room_for place (refuse string_overflow) field (u32 (suc size)) dest >>= read_string size

unfoldable pub pb_dec_fixed_length_bytes : {S : Type 0} → FieldDecoder S
pb_dec_fixed_length_bytes field dest = on_stream pb_decode_varint32 >>= λ size.
    if ltb pb_size_max size
    then refuse bytes_overflow
    else if size == 0
    then write_memory (λ m. fill m dest 0 field.data_size)
    else if not (size == field.data_size)
    then refuse incorrect_fixed_length
    else read_into dest field.data_size
