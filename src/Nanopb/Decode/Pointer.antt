-- ===== src/Nanopb/Decode/Pointer.antt =====
-- `decode_pointer_field` of pb_decode.c, over the decoder of the field's type.
pub mod NoMemory
use social_timeline.Common.{
  ℕ, zero, suc, ◌+◌, ◌-◌, ◌*◌, ◌/◌, ◌%◌, ◌^◌, Bool, true, false, some, List, ◌&&◌, ◌||◌, ltb, leb,
  not, ◌==◌, if◌then◌else◌, u32, u64,
}
use social_timeline.Nanopb.Outcome.{
  invalid_field_type, too_many_array_entries, Outcome, ok, fail, Run, bind, pure, left, ◌>>=◌, ◌>>◌,
}
use social_timeline.Nanopb.Istream.{Istream}
use social_timeline.Nanopb.Wire.{wt_string, pb_make_string_substream}
use social_timeline.Nanopb.Field.{
  Field, FieldIter, current, ltype, htype, ltype_last_packable, ltype_bytes, ltype_string,
  ltype_submessage, htype_required, htype_optional, htype_repeated, htype_oneof, pb_size_max,
}
use social_timeline.Nanopb.Memory.{load_pointer, load_size}
use social_timeline.Nanopb.Decode.State.{
  Decoding, DecoderProgram, FieldDecoder, on_stream, refuse, update, write_memory, assign, reads,
  closing,
}
use social_timeline.Nanopb.Decode.Release.{pb_release_single_field}
use social_timeline.Nanopb.Decode.Allocate.{allocate_field, initialize_pointer_field}
use social_timeline.Nanopb.Decode.Static.{item_at, count_up}

-- The array of a pointer field.
abbrev pub array_of : {S : Type 0} → FieldIter → Decoding S → ℕ
array_of it d = load_pointer d.machine.memory it.p_data

module _ {S : Type 0} (program : DecoderProgram S) (depth : ℕ) (func : FieldDecoder S)
    (it : FieldIter) where
  abbrev initialize : ℕ → Run (Decoding S) (Unit {0})
  initialize item = write_memory (initialize_pointer_field program.descriptors depth item it)

  -- The old message of a field that comes again, and `which_field`.
  unfoldable pub enter_pointer : Run (Decoding S) (Unit {0})
  enter_pointer d =
      let field = current it in
      ((if (ltype field.type == ltype_submessage) && not (array_of it d == 0)
            then update (pb_release_single_field program.descriptors depth it)
            else pure tt)
          >> (if htype field.type == htype_oneof then assign 4 it.p_size field.tag else pure tt))
        d

  -- A field that is not repeated.
  unfoldable pub decode_single : Run (Decoding S) (Unit {0})
  unfolding enter_pointer
  decode_single =
      let field = current it in
      enter_pointer
      >> (if (ltype field.type == ltype_string) || (ltype field.type == ltype_bytes)
          then func field it.p_data
          else allocate_field program.place it.p_data field.data_size 1
            >> reads (λ m. load_pointer m it.p_data)
            >>= initialize
            >> reads (λ m. load_pointer m it.p_data)
            >>= func field)

  -- `allocated_size` when the entry at `*size` has been given room: the guess is the number of entries
  -- that the bytes left can hold.
  unfoldable pub grown_size : ℕ → Decoding S → ℕ
  grown_size allocated_size d =
      if ltb allocated_size (suc (load_size d.machine.memory it.p_size))
      then u64 (allocated_size + ((d.stream.bytes_left - 1) / (current it).data_size + 1))
      else allocated_size

  -- One entry of a packed array.
  unfoldable pub pointer_entry : ℕ → Run (Decoding S) (Unit {0})
  unfolding grown_size
  pointer_entry allocated_size d =
      let field = current it in
      ((if ltb allocated_size (suc (load_size d.machine.memory it.p_size))
            then allocate_field program.place it.p_data field.data_size
                (grown_size allocated_size d)
            else pure tt)
          >> λ d'.
              let item = item_at it (array_of it d') d' in (initialize item >> func field item) d')
        d

  -- Behind an entry: the end of the loop, or `(*size)++` and the next round. The Boolean says that
  -- there were too many entries.
  unfoldable pub behind_entry :
      (Decoding S → Outcome (Decoding S) (Unit {0}) × Bool)
      → Outcome (Decoding S) (Unit {0})
      → Outcome (Decoding S) (Unit {0}) × Bool
  behind_entry next (fail d) = (fail d, false)
  behind_entry next (ok _ d) =
      if load_size d.machine.memory it.p_size == pb_size_max
      then (fail d, true)
      else next (left (count_up it d))

  -- The loop over a packed array in its substream. Each entry takes a byte at least: the bytes that are
  -- left bound the rounds.
  unfoldable pub packed_items : ℕ → ℕ → Decoding S → Outcome (Decoding S) (Unit {0}) × Bool
  unfolding pointer_entry behind_entry
  packed_items zero allocated_size d = (ok tt d, false)
  packed_items (suc rounds) allocated_size d =
      let again =
        behind_entry (packed_items rounds (grown_size allocated_size d))
          (pointer_entry allocated_size d) in
      if d.stream.bytes_left == 0 then (ok tt d, false) else again

  -- The end of the branch for packed arrays; too many entries set the message of the stream.
  unfoldable pub end_items :
      Istream S → Outcome (Decoding S) (Unit {0}) × Bool → Outcome (Decoding S) (Unit {0})
  end_items stream (result, false) = closing stream result
  end_items stream (result, true) =
      closing (record stream { errmsg = some too_many_array_entries }) result

  unfoldable pub decode_items : Istream S → Run (Decoding S) (Unit {0})
  unfolding packed_items end_items
  decode_items substream d = end_items d.stream (
      packed_items substream.bytes_left (load_size d.machine.memory it.p_size)
        (record d { stream = substream }))

  -- The entry at `*size - 1`, in the arithmetic of `pb_size_t`.
  unfoldable pub decode_last : Run (Decoding S) (Unit {0})
  decode_last d =
      let field = current it in
      let last = u32 (load_size d.machine.memory it.p_size + (2 ^ 32 - 1)) in
      let item = array_of it d + u32 (field.data_size * last) in
      (initialize item >> func field item) d

  -- One entry of an array that is not packed.
  unfoldable pub decode_item : Run (Decoding S) (Unit {0})
  unfolding decode_last
  decode_item d =
      if load_size d.machine.memory it.p_size == pb_size_max
      then refuse too_many_array_entries d
      else (count_up it
            >> (reads (λ m. load_size m it.p_size)
                >>= allocate_field program.place it.p_data (current it).data_size)
            >> decode_last)
          d

  unfoldable pub decode_pointer_field : ℕ → Run (Decoding S) (Unit {0})
  unfolding decode_single decode_items decode_item
  decode_pointer_field wire_type =
      let field = current it in
      let h = htype field.type in
      if (h == htype_required) || ((h == htype_optional) || (h == htype_oneof))
      then decode_single
      else if h == htype_repeated
      then (if (wire_type == wt_string) && leb (ltype field.type) ltype_last_packable
          then on_stream pb_make_string_substream >>= decode_items
          else decode_item)
      else refuse invalid_field_type
