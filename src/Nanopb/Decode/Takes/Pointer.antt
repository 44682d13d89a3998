-- ===== src/Nanopb/Decode/Takes/Pointer.antt =====
-- `decode_pointer_field` of pb_decode.c never adds to what the stream has left.
use social_timeline.Common.{ℕ, ◌+◌, ◌-◌, ◌*◌, ◌^◌, ◌≤◌, u32}
use social_timeline.Common.{Bool, true, false, leb, ◌==◌, ◌&&◌, ◌||◌, not}
use native.Mathlib.Nat.{le_refl}
use social_timeline.Nanopb.Outcome.{Errmsg, Outcome, left, ◌>>=◌, ◌>>◌}
use social_timeline.Nanopb.Outcome.Takes.{
  Takes, takes, at_most, Takes-bind, Takes-then, Takes-if, Takes-test, Takes-pure,
}
use social_timeline.Nanopb.Istream.{Istream}
use social_timeline.Nanopb.Wire.{wt_string}
use social_timeline.Nanopb.Wire.Takes.{pb_make_string_substream-Takes}
use social_timeline.Nanopb.Field.{
  Field, FieldIter, current, ltype, htype, ltype_submessage, htype_oneof, pb_size_max,
  htype_required, htype_optional, htype_repeated, ltype_last_packable,
}
use social_timeline.Nanopb.Memory.{load_size}
use social_timeline.Nanopb.Decode.State.{Decoding, DecoderProgram, FieldDecoder, refuse, reads}
use social_timeline.Nanopb.Decode.Takes.{
  same_le, remaining, on_stream-Takes, refuse-Takes, update-Takes, write_memory-Takes, assign-Takes,
  reads-Takes, closing-left,
}
use social_timeline.Nanopb.Decode.Allocate.{allocate_field, initialize_pointer_field}
use social_timeline.Nanopb.Decode.Static.{count_up}
use social_timeline.Nanopb.Decode.Pointer.{
  enter_pointer, decode_single, end_items, decode_items, decode_last, decode_item,
  decode_pointer_field, array_of, packed_items,
}
use social_timeline.Nanopb.Decode.Takes.Values.{allocate_field-Takes}
use social_timeline.Nanopb.Decode.Takes.Static.{count_up-Takes}

module _ {S : Type 0} (func : FieldDecoder S) (it : FieldIter)
    (func-Takes : (field : Field) (dest : ℕ) → Takes (remaining {S = S}) (func field dest))
    (program : DecoderProgram S) (depth : ℕ) where
  enter_pointer-Takes : Takes (remaining {S = S}) (enter_pointer program depth func it)
  unfolding enter_pointer
  enter_pointer-Takes = takes λ d.
      at_most
        (Takes-then
          (Takes-if ((ltype (current it).type == ltype_submessage) && not (array_of it d == 0))
            (update-Takes _) (Takes-pure tt))
          (Takes-if (htype (current it).type == htype_oneof) (assign-Takes 4 it.p_size _)
            (Takes-pure tt)))
        d

  decode_single-Takes : Takes (remaining {S = S}) (decode_single program depth func it)
  unfolding decode_single
  decode_single-Takes = Takes-then enter_pointer-Takes (
      Takes-if _ (func-Takes _ it.p_data) (
        Takes-bind
          (Takes-then
            (Takes-bind
              (Takes-then (allocate_field-Takes program.place it.p_data _ 1) (reads-Takes _))
              (λ item. write_memory-Takes _))
            (reads-Takes _))
          (func-Takes _)))

  end_items-at_most :
      (s : Istream S) (result : Outcome (Decoding S) (Unit {0}) × Bool)
      → remaining (left (end_items program depth func it s result)) ≤ s.bytes_left
  unfolding end_items
  end_items-at_most s (result, true) = same_le (closing-left _ result) (le_refl s.bytes_left)
  end_items-at_most s (result, false) = same_le (closing-left s result) (le_refl s.bytes_left)

  decode_items-Takes :
      (sub : Istream S) → Takes (remaining {S = S}) (decode_items program depth func it sub)
  unfolding decode_items
  decode_items-Takes sub = takes λ d. end_items-at_most d.stream (
      packed_items program depth func it sub.bytes_left (load_size d.machine.memory it.p_size)
        (record d { stream = sub }))

  decode_last-Takes : Takes (remaining {S = S}) (decode_last program depth func it)
  unfolding decode_last
  decode_last-Takes = takes λ d.
      let item =
        array_of it d
        + u32
            ((current it).data_size * u32 (load_size d.machine.memory it.p_size + (2 ^ 32 - 1))) in
      at_most
        (Takes-then
          (write_memory-Takes (initialize_pointer_field program.descriptors depth item it))
          (func-Takes (current it) item))
        d

  decode_item-Takes : Takes (remaining {S = S}) (decode_item program depth func it)
  unfolding decode_item
  decode_item-Takes =
      let allocate = allocate_field program.place it.p_data (current it).data_size in
      Takes-test (λ d. load_size d.machine.memory it.p_size == pb_size_max)
        (refuse Errmsg.too_many_array_entries)
        (count_up it
          >> (reads (λ m. load_size m it.p_size) >>= allocate)
          >> decode_last program depth func it)
        (refuse-Takes Errmsg.too_many_array_entries)
        (Takes-then
          (Takes-then (count_up-Takes func it func-Takes) (
            Takes-bind (reads-Takes (λ m. load_size m it.p_size))
              (allocate_field-Takes program.place it.p_data (current it).data_size)))
          decode_last-Takes)

  pub decode_pointer_field-Takes :
      (wire_type : ℕ)
      → Takes (remaining {S = S}) (decode_pointer_field program depth func it wire_type)
  unfolding decode_pointer_field
  decode_pointer_field-Takes wire_type =
      let h = htype (current it).type in
      Takes-if ((h == htype_required) || ((h == htype_optional) || (h == htype_oneof)))
        decode_single-Takes
        (Takes-if (h == htype_repeated)
          (Takes-if ((wire_type == wt_string) && leb (ltype (current it).type) ltype_last_packable)
            (Takes-bind (on_stream-Takes pb_make_string_substream-Takes) decode_items-Takes)
            decode_item-Takes)
          (refuse-Takes Errmsg.invalid_field_type))
