-- ===== src/Nanopb/Decode/Takes/Static.antt =====
-- `decode_static_field` of pb_decode.c never adds to what the stream has left.
use social_timeline.Common.{ℕ, ◌≤◌}
use social_timeline.Common.{List, leb, ◌==◌, ◌&&◌, not, if-cases}
use native.Mathlib.Nat.{le_refl}
use social_timeline.Nanopb.Outcome.{Errmsg, Outcome, left}
use social_timeline.Nanopb.Outcome.Takes.{
  Takes, takes, at_most, Takes-bind, Takes-then, Takes-if, Takes-pure,
}
use social_timeline.Nanopb.Istream.{Istream}
use social_timeline.Nanopb.Wire.{wt_string}
use social_timeline.Nanopb.Wire.Takes.{pb_make_string_substream-Takes}
use social_timeline.Nanopb.Field.{
  Field, FieldIter, current, ltype, htype, htype_oneof, htype_required, htype_optional,
  htype_repeated, ltype_last_packable,
}
use social_timeline.Nanopb.Memory.{load_size}
use social_timeline.Nanopb.Decode.State.{Decoding, FieldDecoder, refuse, closing}
use social_timeline.Nanopb.Decode.Takes.{
  same_le, remaining, on_stream-Takes, refuse-Takes, write_memory-Takes, assign-Takes,
  assign_bool-Takes, closing-left,
}
use social_timeline.Nanopb.Decode.Static.{
  count_up, packed_entries, end_packed, decode_packed, decode_entry, enter_oneof,
  decode_static_field, item_at,
}

module _ {S : Type 0} (func : FieldDecoder S) (it : FieldIter)
    (func-Takes : (field : Field) (dest : ℕ) → Takes (remaining {S = S}) (func field dest)) where
  pub count_up-Takes : Takes (remaining {S = S}) (count_up it)
  unfolding count_up
  count_up-Takes = takes λ d. at_most (assign-Takes 4 it.p_size _) d

  end_packed-at_most :
      (s : Istream S) (result : Outcome (Decoding S) (Unit {0}))
      → remaining (left (end_packed func it s result)) ≤ s.bytes_left
  unfolding end_packed
  end_packed-at_most s result =
      if-cases (λ (o : Outcome (Decoding S) (Unit {0})). remaining (left o) ≤ s.bytes_left)
        (not ((left result).stream.bytes_left == 0))
        (refuse Errmsg.array_overflow (record (left result) { stream = s })) (closing s result)
        (at_most (refuse-Takes {A = Unit {0}} Errmsg.array_overflow)
          (record (left result) { stream = s }))
        (same_le (closing-left s result) (le_refl s.bytes_left))

  decode_packed-Takes : (sub : Istream S) → Takes (remaining {S = S}) (decode_packed func it sub)
  unfolding decode_packed
  decode_packed-Takes sub = takes λ d.
      end_packed-at_most d.stream
        (packed_entries func it sub.bytes_left (record d { stream = sub }))

  decode_entry-Takes : Takes (remaining {S = S}) (decode_entry func it)
  unfolding decode_entry
  decode_entry-Takes = takes λ d.
      at_most
        (Takes-then count_up-Takes (
          Takes-if (leb (current it).array_size (load_size d.machine.memory it.p_size))
            (refuse-Takes Errmsg.array_overflow)
            (func-Takes (current it) (item_at it it.p_data d))))
        d

  enter_oneof-Takes :
      (descriptors : ℕ → List Field) (depth : ℕ)
      → Takes (remaining {S = S}) (enter_oneof func it descriptors depth)
  unfolding enter_oneof
  enter_oneof-Takes descriptors depth =
      Takes-then (assign-Takes 4 it.p_size _) (Takes-if _ (write_memory-Takes _) (Takes-pure tt))

  pub decode_static_field-Takes :
      (descriptors : ℕ → List Field) (depth wire_type : ℕ)
      → Takes (remaining {S = S}) (decode_static_field func it descriptors depth wire_type)
  unfolding decode_static_field
  decode_static_field-Takes descriptors depth wire_type =
      let field = current it in
      Takes-if (htype field.type == htype_required) (func-Takes field it.p_data) (
        Takes-if (htype field.type == htype_optional)
          (Takes-then
            (Takes-if (not (it.p_size == it.p_data)) (assign_bool-Takes it.p_size 1)
              (Takes-pure tt))
            (func-Takes field it.p_data))
          (Takes-if (htype field.type == htype_repeated)
            (Takes-if ((wire_type == wt_string) && leb (ltype field.type) ltype_last_packable)
              (Takes-bind (on_stream-Takes pb_make_string_substream-Takes) decode_packed-Takes)
              decode_entry-Takes)
            (Takes-if (htype field.type == htype_oneof)
              (Takes-then (enter_oneof-Takes descriptors depth) (func-Takes field it.p_data))
              (refuse-Takes Errmsg.invalid_field_type))))
