-- ===== src/Nanopb/Decode/Static.antt =====
-- `decode_static_field` of pb_decode.c, over the decoder of the field's type.
pub mod Full
use social_timeline.Common.{
  ℕ, zero, suc, ◌+◌, ◌*◌, true, List, ◌&&◌, ltb, leb, not, ◌==◌, if◌then◌else◌, u32,
}
use social_timeline.Nanopb.Outcome.{
  invalid_field_type, array_overflow, Outcome, ok, Run, bind, pure, left, ◌>>=◌, ◌>>◌,
}
use social_timeline.Nanopb.Istream.{Istream}
use social_timeline.Nanopb.Wire.{wt_string, pb_make_string_substream}
use social_timeline.Nanopb.Field.{
  Field, FieldIter, current, ltype, htype, ltype_last_packable, ltype_submessage, htype_required,
  htype_optional, htype_repeated, htype_oneof,
}
use social_timeline.Nanopb.Memory.{load_size, fill}
use social_timeline.Nanopb.Decode.State.{
  Decoding, FieldDecoder, on_stream, refuse, write_memory, assign, assign_bool, closing,
}
use social_timeline.Nanopb.Decode.Default.{pb_message_set_to_defaults}

-- The address of entry `*size`; the product has the type of its factors, `pb_size_t`.
abbrev pub item_at : {S : Type 0} → FieldIter → ℕ → Decoding S → ℕ
item_at it p_array d = p_array + u32 ((current it).data_size * load_size d.machine.memory it.p_size)

-- `(*size)++`
unfoldable pub count_up : {S : Type 0} → FieldIter → Run (Decoding S) (Unit {0})
count_up it d = assign 4 it.p_size (u32 (suc (load_size d.machine.memory it.p_size))) d

module _ {S : Type 0} (func : FieldDecoder S) (it : FieldIter) where
  -- The loop over a packed array in its substream. Each entry takes a byte at least: the bytes that are
  -- left bound the rounds.
  unfoldable pub packed_entries : ℕ → Run (Decoding S) (Unit {0})
  unfolding count_up
  packed_entries zero d = ok tt d
  packed_entries (suc rounds) d =
      let again =
        bind ((func (current it) (item_at it it.p_data d) >> count_up it) d)
          λ _. packed_entries rounds in
      if not (d.stream.bytes_left == 0)
        && ltb (load_size d.machine.memory it.p_size) (current it).array_size
      then again
      else ok tt d

  -- The end of the branch for packed arrays.
  unfoldable pub end_packed :
      Istream S → Outcome (Decoding S) (Unit {0}) → Outcome (Decoding S) (Unit {0})
  end_packed stream result =
      if not ((left result).stream.bytes_left == 0)
      then refuse array_overflow (record (left result) { stream = stream })
      else closing stream result

  unfoldable pub decode_packed : Istream S → Run (Decoding S) (Unit {0})
  unfolding packed_entries end_packed
  decode_packed substream d =
      end_packed d.stream (packed_entries substream.bytes_left (record d { stream = substream }))

  -- One entry of an array that is not packed.
  unfoldable pub decode_entry : Run (Decoding S) (Unit {0})
  unfolding count_up
  decode_entry d =
      let item = item_at it it.p_data d in
      let full = leb (current it).array_size (load_size d.machine.memory it.p_size) in
      (count_up it >> (if full then refuse array_overflow else func (current it) item)) d

  -- `which_field`, and the defaults of a submessage.
  unfoldable pub enter_oneof : (ℕ → List Field) → ℕ → Run (Decoding S) (Unit {0})
  enter_oneof descriptors depth =
      let field = current it in
      assign 4 it.p_size field.tag
      >> (if ltype field.type == ltype_submessage
          then write_memory (λ m.
            pb_message_set_to_defaults descriptors depth (descriptors field.ptr) it.p_data
              (fill m it.p_data 0 field.data_size))
          else pure tt)

  unfoldable pub decode_static_field : (ℕ → List Field) → ℕ → ℕ → Run (Decoding S) (Unit {0})
  unfolding decode_packed decode_entry enter_oneof
  decode_static_field descriptors depth wire_type =
      let field = current it in
      if htype field.type == htype_required
      then func field it.p_data
      else if htype field.type == htype_optional
      then (if not (it.p_size == it.p_data) then assign_bool it.p_size 1 else pure tt)
        >> func field it.p_data
      else if htype field.type == htype_repeated
      then (if (wire_type == wt_string) && leb (ltype field.type) ltype_last_packable
          then on_stream pb_make_string_substream >>= decode_packed
          else decode_entry)
      else if htype field.type == htype_oneof
      then enter_oneof descriptors depth >> func field it.p_data
      else refuse invalid_field_type
