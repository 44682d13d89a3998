-- ===== src/Nanopb/Decode/Message.antt =====
-- `pb_decode_noinit` of pb_decode.c and the functions of the interface that are built on it.
pub mod Step
pub mod Unknown
pub mod Known
pub mod Sequence
pub mod Count
pub mod Complete
pub mod Layout
pub mod RoundTrip
pub mod Delimited
mod Runs
use social_timeline.Common.{
  ℕ, zero, suc, ◌+◌, ◌-◌, ◌/◌, ◌^◌, Bool, true, false, Option, none, some, List, ◌&&◌, bit_and,
  bit_or, get_or, length, ltb, leb, not, ◌==◌, if◌then◌else◌, min, ◌<<<◌, ◌>>>◌,
}
use social_timeline.Nanopb.Outcome.{
  missing_required_field, wrong_fixed_count, Outcome, ok, fail, Run, bind, pure, ◌>>=◌, ◌>>◌,
}
use social_timeline.Nanopb.Istream.{Istream}
use social_timeline.Nanopb.Wire.{Tag, pb_decode_tag, pb_skip_field, pb_make_string_substream}
use social_timeline.Nanopb.Field.{
  Field, FieldIter, last_field, current, htype, htype_required, htype_repeated, pb_field_iter_begin,
  pb_field_iter_next, pb_field_iter_find,
}
use social_timeline.Nanopb.Memory.{Memory, load_size}
use social_timeline.Nanopb.Heap.{Machine}
use social_timeline.Nanopb.Decode.State.{
  Decoding, DecoderProgram, on_stream, refuse, assign, in_substream,
}
use social_timeline.Nanopb.Decode.Required.{FieldsSeen, none_seen, mark_seen, all_seen}
use social_timeline.Nanopb.Decode.Nested.{decode_message}
use social_timeline.Nanopb.Decode.Fields.{decode_field, find_extension_field, decode_extension}

-- PB_MAX_REQUIRED_FIELDS.
abbrev pub pb_max_required_fields : ℕ
pb_max_required_fields = 64

-- The locals of `pb_decode_noinit`, but for `fixed_count_size`, which a pointer is taken of.
-- `fixed_count_field` is an index into the fields.
pub record Progress : Type 0 where
  pub iter : FieldIter
  pub fields_seen : FieldsSeen
  pub extension_range_start : ℕ
  pub fixed_count_field : Option ℕ

unfoldable pub is_counting : Option ℕ → ℕ → Bool
is_counting none pos = false
is_counting (some field) pos = field == pos

-- `req_field_count` and the iterator behind the do-while loop that finds it: what the last round has
-- seen, and where the last call of `pb_field_iter_next` has left the iterator.
unfoldable pub seek_end : ℕ → FieldIter → FieldIter × FieldIter
seek_end zero it = (it, it)
seek_end (suc fuel) it =
    let rest = seek_end fuel (pb_field_iter_next it).0 in
    if (pb_field_iter_next it).1 then rest else (it, (pb_field_iter_next it).0)

unfoldable pub required_count : FieldIter → ℕ
unfolding seek_end
required_count it =
    let (last, behind) = seek_end (length it.start) it in
    let fixup = (htype (current last).type == htype_required) && not ((current behind).tag == 0) in
    min pb_max_required_fields
      (if fixup then suc last.required_field_index else last.required_field_index)

module _ {S : Type 0} (program : DecoderProgram S) (depth : ℕ)
    (noinit : List Field → ℕ → Run (Decoding S) (Unit {0})) where
  abbrev fixed_count_size : ℕ
  fixed_count_size = program.fixed_count_at depth

  -- Whether the last fixed count field has all its entries.
  unfoldable pub fixed_count_complete : List Field → Option ℕ → Memory → Bool
  fixed_count_complete fields none m = true
  fixed_count_complete fields (some pos) m =
      load_size m fixed_count_size == (get_or fields pos last_field).array_size

  unfoldable pub skip_unknown : ℕ → Progress → Run (Decoding S) Progress
  skip_unknown wire_type p = on_stream (pb_skip_field wire_type) >> pure p

  -- The extensions are tried, and the field is skipped when none of them has read anything.
  unfoldable pub try_extensions : Tag → Progress → Run (Decoding S) Progress
  unfolding skip_unknown
  try_extensions t p d =
      bind (decode_extension program depth noinit t.tag t.wire_type p.iter d) λ _ d'.
        if d'.stream.bytes_left == d.stream.bytes_left
        then skip_unknown t.wire_type p d'
        else ok p d'

  -- A field that the message does not have.
  unfoldable pub decode_unknown : Tag → Progress → Run (Decoding S) Progress
  unfolding try_extensions
  decode_unknown t p =
      let extension = find_extension_field p.iter in
      let range_start = if extension.1 then (current extension.0).tag else 2 ^ 32 - 1 in
      let p' = record p { iter = extension.0; extension_range_start = range_start } in
      if leb p.extension_range_start t.tag
      then (if leb range_start t.tag then try_extensions t p' else skip_unknown t.wire_type p')
      else skip_unknown t.wire_type p

  -- The block for repeated fields of a fixed count, which have no counter in the structure.
  unfoldable pub count_fixed : Progress → Run (Decoding S) Progress
  unfolding fixed_count_complete
  count_fixed p d =
      let it = p.iter in
      let p' = record p {
        iter = record it { p_size = fixed_count_size };
        fixed_count_field = some it.pos;
      } in
      if not ((htype (current it).type == htype_repeated) && (it.p_size == it.p_data))
      then ok p d
      else if is_counting p.fixed_count_field it.pos
      then ok p' d
      else if not (fixed_count_complete it.start p.fixed_count_field d.machine.memory)
      then refuse wrong_fixed_count d
      else (assign 4 fixed_count_size 0 >> pure p') d

  unfoldable pub see_required : Progress → Progress
  see_required p =
      let it = p.iter in
      if (htype (current it).type == htype_required)
        && ltb it.required_field_index pb_max_required_fields
      then record p { fields_seen = mark_seen it.required_field_index p.fields_seen }
      else p

  -- A field that the iterator of the message stands at.
  unfoldable pub decode_known : ℕ → Progress → Run (Decoding S) Progress
  unfolding count_fixed see_required
  decode_known wire_type p = count_fixed p >>= λ p'.
      let seen = see_required p' in
      decode_field program depth noinit wire_type seen.iter >>= λ it.
      pure (record seen { iter = it })

  -- The body of the loop behind the tag.
  unfoldable pub decode_next : Tag → Progress → Run (Decoding S) Progress
  unfolding decode_unknown decode_known
  decode_next t p =
      let found = pb_field_iter_find t.tag p.iter in
      let p' = record p { iter = found.0 } in
      if found.1 then decode_known t.wire_type p' else decode_unknown t p'

  -- What follows `pb_decode_tag`.
  unfoldable pub behind_tag :
      (Tag → Run (Decoding S) Progress)
      → Progress
      → Machine
      → Outcome (Istream S) Tag × Bool
      → Outcome (Decoding S) Progress
  behind_tag next p x (fail s, eof) =
      let d : Decoding S = record { stream = s; machine = x } in if eof then ok p d else fail d
  behind_tag next p x (ok t s, eof) = next t (record { stream = s; machine = x })

  -- The loop `while (stream->bytes_left)`. Each round takes the byte of a tag at least: one round more
  -- than there are bytes left is enough.
  unfoldable pub decode_loop : ℕ → Progress → Run (Decoding S) Progress
  unfolding decode_next behind_tag
  decode_loop zero p d = fail d
  decode_loop (suc rounds) p d =
      let again =
        behind_tag (λ t. decode_next t p >>= decode_loop rounds) p d.machine
          (pb_decode_tag d.stream) in
      if d.stream.bytes_left == 0 then ok p d else again

  -- The checks behind the loop.
  unfoldable pub check_complete : Progress → Run (Decoding S) (Unit {0})
  unfolding fixed_count_complete required_count
  check_complete p d =
      if not (fixed_count_complete p.iter.start p.fixed_count_field d.machine.memory)
      then refuse wrong_fixed_count d
      else if not (all_seen (required_count p.iter) p.fields_seen)
      then refuse missing_required_field d
      else ok tt d

  unfoldable pub decode_fields : List Field → ℕ → Run (Decoding S) (Unit {0})
  unfolding decode_loop check_complete
  decode_fields fields dest_struct d =
      let start : Progress = record {
        iter = (pb_field_iter_begin fields dest_struct).0;
        fields_seen = none_seen;
        extension_range_start = 0;
        fixed_count_field = none;
      } in
      (assign 4 fixed_count_size 0
          >> decode_loop (suc d.stream.bytes_left) start
          >>= check_complete)
        d

module _ {S : Type 0} (program : DecoderProgram S) where
  -- The first argument bounds the nesting of submessages and the length of an extension list; where it
  -- runs out, the decoder says false.
  unfoldable pub pb_decode_noinit : ℕ → List Field → ℕ → Run (Decoding S) (Unit {0})
  pb_decode_noinit zero fields dest_struct = fail
  pb_decode_noinit (suc depth) fields dest_struct =
      decode_fields program depth (pb_decode_noinit depth) fields dest_struct

  unfoldable pub pb_decode : ℕ → List Field → ℕ → Run (Decoding S) (Unit {0})
  unfolding decode_message
  pb_decode depth = decode_message program depth (pb_decode_noinit depth)

  unfoldable pub pb_decode_delimited_noinit : ℕ → List Field → ℕ → Run (Decoding S) (Unit {0})
  pb_decode_delimited_noinit depth fields dest_struct =
      on_stream pb_make_string_substream
      >>= in_substream (pb_decode_noinit depth fields dest_struct)

  unfoldable pub pb_decode_delimited : ℕ → List Field → ℕ → Run (Decoding S) (Unit {0})
  pb_decode_delimited depth fields dest_struct =
      on_stream pb_make_string_substream >>= in_substream (pb_decode depth fields dest_struct)

  unfoldable pub pb_decode_nullterminated : ℕ → List Field → ℕ → Run (Decoding S) (Unit {0})
  pb_decode_nullterminated depth fields dest_struct = pb_decode depth fields dest_struct
