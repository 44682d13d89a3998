-- ===== src/Nanopb/Encode/Fields.antt =====
-- Fields and their repetition in pb_encode.c: arrays, callbacks and extensions, over the
-- encoder of the messages one level deeper.
use social_timeline.Common.{
  ℕ, zero, suc, ◌+◌, ◌*◌, Bool, true, false, List, [], ◌&&◌, ◌||◌, get_or, not, ltb, leb, ◌==◌,
  if◌then◌else◌, u64,
}
use social_timeline.Nanopb.Outcome.{
  array_max_size_exceeded, missing_required_field, invalid_field_type, callback_error,
  invalid_field_descriptor,
}
use social_timeline.Nanopb.Outcome.{Outcome, ok, fail, Run, pure, ◌>>◌, ◌>>=◌}
use social_timeline.Nanopb.Ostream
use social_timeline.Nanopb.Ostream.{Ostream, WriteCallback, pb_write, sizing_stream}
use social_timeline.Nanopb.Varint.{pb_encode_varint}
use social_timeline.Nanopb.Wire.{wt_string, pb_encode_tag}
use social_timeline.Nanopb.Field.{
  Field, last_field, ltype, htype, atype, ltype_varint, ltype_uvarint, ltype_svarint, ltype_fixed32,
  ltype_fixed64, ltype_last_packable, ltype_bytes, ltype_string, ltype_submessage,
  ltype_fixed_length_bytes,
}
use social_timeline.Nanopb.Field.{
  htype_required, htype_optional, htype_repeated, htype_oneof, atype_static, atype_pointer,
  atype_callback, add_offset,
}
use social_timeline.Nanopb.Memory.{Memory, load_pointer, load_size, load_bool, funcs, arg, Program}
use social_timeline.Nanopb.Memory.Extension.{dest, next, type_encode, type_arg}
use social_timeline.Nanopb.Encode.Scalars.{
  Encoder, pb_encode_tag_for_field, pb_enc_varint, pb_enc_uvarint, pb_enc_svarint, pb_enc_fixed32,
  pb_enc_fixed64, pb_enc_bytes, pb_enc_string, pb_enc_fixed_length_bytes,
}
use social_timeline.Nanopb.Encode.Nested.{is_sizing, encode_submessage}

-- `for (i = 0; i < count; i++)` over the entries of an array.
unfoldable pub for_entries :
    {S : Type 0} → (ℕ → Run (Ostream S) (Unit {0})) → ℕ → ℕ → ℕ → Run (Ostream S) (Unit {0})
for_entries body data_size zero p = pure tt
for_entries body data_size (suc count) p =
    body p >> for_entries body data_size count (p + data_size)

-- `size` of a packed array; a failure to encode an entry has no message.
unfoldable pub sized :
    {S : Type 0} → Ostream S → Outcome (Ostream S) (Unit {0}) → Outcome (Ostream S) ℕ
sized s (ok _ sizestream) = ok sizestream.bytes_written s
sized s (fail sizestream) = fail s

unfoldable pub packed_size : {S : Type 0} → Encoder S → Field → ℕ → ℕ → Run (Ostream S) ℕ
packed_size func field count p s =
    if ltype field.type == ltype_fixed32
    then ok (u64 (4 * count)) s
    else if ltype field.type == ltype_fixed64
    then ok (u64 (8 * count)) s
    else sized s (for_entries (func field) field.data_size count p (sizing_stream s.state))

-- The data of a packed array.
unfoldable pub write_packed :
    {S : Type 0} → Encoder S → Field → ℕ → ℕ → ℕ → Run (Ostream S) (Unit {0})
write_packed func field count p size s =
    if is_sizing s.callback
    then pb_write [] size s
    else for_entries (func field) field.data_size count p s

-- The address that an entry of an unpacked array is encoded from.
abbrev pub entry : Memory → Field → ℕ → ℕ
entry m field p =
    if (atype field.type == atype_pointer)
      && ((ltype field.type == ltype_string) || (ltype field.type == ltype_bytes))
    then load_pointer m p
    else p

module _ {S : Type 0} (m : Memory) where
  unfoldable pub encode_array : Field → ℕ → ℕ → Encoder S → Run (Ostream S) (Unit {0})
  encode_array field p_data count func =
      if count == 0
      then pure tt
      else if not (atype field.type == atype_pointer) && ltb field.array_size count
      then Ostream.return_error array_max_size_exceeded
      else if leb (ltype field.type) ltype_last_packable
      then (do
        pb_encode_tag wt_string field.tag
        size ← packed_size func field count p_data
        pb_encode_varint size
        write_packed func field count p_data size)
      else for_entries (λ p. pb_encode_tag_for_field field >> func field (entry m field p))
          field.data_size count p_data

-- The answer of a callback of the program.
unfoldable pub after_callback :
    {S : Type 0} → Outcome (Ostream S) (Unit {0}) → Outcome (Ostream S) (Unit {0})
after_callback (ok _ s) = ok tt s
after_callback (fail s) = Ostream.return_error callback_error s

unfoldable pub call_back : {S : Type 0} → Run (Ostream S) (Unit {0}) → Run (Ostream S) (Unit {0})
call_back callback s = after_callback (callback s)

-- The encoder of a message one level deeper, and the test on its fields.
module _ {S : Type 0} (program : Program (Run (Ostream S) (Unit {0})))
    (nested : List Field → ℕ → Run (Ostream S) (Unit {0})) (is_default : Field → ℕ → Bool) where
  abbrev m : Memory
  m = program.memory

  unfoldable pub pb_enc_submessage : Encoder S
  pb_enc_submessage field src =
      if field.ptr == 0
      then Ostream.return_error invalid_field_descriptor
      else encode_submessage (nested (program.descriptors field.ptr) src)

  -- PB_ENCODERS. Other types have no function; none is called for them, since
  -- `pb_encode_tag_for_field` fails first.
  unfoldable pub encoder_for : ℕ → Encoder S
  encoder_for t field src =
      if t == ltype_varint
      then pb_enc_varint m field src
      else if t == ltype_uvarint
      then pb_enc_uvarint m field src
      else if t == ltype_svarint
      then pb_enc_svarint m field src
      else if t == ltype_fixed32
      then pb_enc_fixed32 m field src
      else if t == ltype_fixed64
      then pb_enc_fixed64 m field src
      else if t == ltype_bytes
      then pb_enc_bytes m field src
      else if t == ltype_string
      then pb_enc_string m field src
      else if t == ltype_submessage
      then pb_enc_submessage field src
      else if t == ltype_fixed_length_bytes
      then pb_enc_fixed_length_bytes m field src
      else Ostream.return_error invalid_field_type

  -- `implicit_has`, with the pointer of a pointer field followed.
  unfoldable pub implicit_has : Field → ℕ → Bool
  implicit_has field p_data =
      if atype field.type == atype_pointer
      then not (load_pointer m p_data == 0)
      else if not (field.size_offset == 0)
      then false
      else if htype field.type == htype_optional
      then not (is_default field p_data)
      else true

  -- The tag and the value.
  abbrev pub encode_one : Field → ℕ → Run (Ostream S) (Unit {0})
  encode_one field value =
      pb_encode_tag_for_field field >> encoder_for (ltype field.type) field value

  -- The switch on `PB_HTYPE` of `encode_basic_field`. A oneof field has a `size_offset`.
  unfoldable pub encode_by_htype : Field → ℕ → ℕ → Run (Ostream S) (Unit {0})
  encode_by_htype field p_data value =
      let p_size = add_offset p_data field.size_offset in
      let h = htype field.type in
      if h == htype_required
      then (if value == 0
          then Ostream.return_error missing_required_field
          else encode_one field value)
      else if h == htype_optional
      then (if (if field.size_offset == 0 then implicit_has field p_data else load_bool m p_size)
          then encode_one field value
          else pure tt)
      else if h == htype_repeated
      then encode_array m field value
          (if field.size_offset == 0 then field.array_size else load_size m p_size)
          (encoder_for (ltype field.type))
      else if h == htype_oneof
      then (if load_size m p_size == field.tag then encode_one field value else pure tt)
      else Ostream.return_error invalid_field_type

  unfoldable pub encode_basic_field : Field → ℕ → Run (Ostream S) (Unit {0})
  encode_basic_field field p_data =
      encode_by_htype field p_data
        (if atype field.type == atype_pointer then load_pointer m p_data else p_data)

  unfoldable pub encode_callback_field : Field → ℕ → Run (Ostream S) (Unit {0})
  encode_callback_field field p_data =
      if funcs m p_data == 0
      then pure tt
      else call_back (program.callback_encode (funcs m p_data) field (arg p_data))

  unfoldable pub encode_field : Field → ℕ → Run (Ostream S) (Unit {0})
  encode_field field p_data =
      let a = atype field.type in
      if (a == atype_static) || (a == atype_pointer)
      then encode_basic_field field p_data
      else if a == atype_callback
      then encode_callback_field field p_data
      else Ostream.return_error invalid_field_type

  unfoldable pub default_extension_encoder : ℕ → Run (Ostream S) (Unit {0})
  default_extension_encoder extension =
      let field = get_or (program.descriptors (type_arg m extension)) 0 last_field in
      if atype field.type == atype_pointer
      then encode_field field (dest extension)
      else encode_field field (load_pointer m (dest extension))

  -- The loop over a list of extensions of at most `links` links; a longer one is refused.
  unfoldable pub encode_extensions : ℕ → ℕ → Run (Ostream S) (Unit {0})
  encode_extensions zero extension = if extension == 0 then pure tt else fail
  encode_extensions (suc links) extension =
      let rest = encode_extensions links (next m extension) in
      let first =
        if type_encode m extension == 0
        then default_extension_encoder extension
        else program.extension_encode (type_encode m extension) extension in
      if extension == 0 then pure tt else first >> rest

  unfoldable pub encode_extension_field : ℕ → ℕ → Run (Ostream S) (Unit {0})
  encode_extension_field links p_data = encode_extensions links (load_pointer m p_data)
