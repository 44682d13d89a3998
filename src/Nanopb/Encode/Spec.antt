-- ===== src/Nanopb/Encode/Spec.antt =====
-- What a message is encoded to, without streams: the bytes of each field, one behind the other, with
-- the length of every packed array and submessage in front of it; `none` where the encoder of
-- pb_encode.c refuses.
use social_timeline.Common.{
  ℕ, zero, suc, ◌+◌, ◌%◌, ◌^◌, Bool, true, false, Option, none, some, List, [], ◌++◌, ◌&&◌, ◌||◌,
  length, get_or, not, ltb, leb, ◌==◌, if◌then◌else◌, u64,
}
use social_timeline.Nanopb.Varint.{zigzag}
use social_timeline.Nanopb.Varint.Bytes.{varint}
use social_timeline.Nanopb.Wire.{
  wt_varint, wt_64bit, wt_string, wt_32bit, fixed32_bytes, fixed64_bytes,
}
use social_timeline.Nanopb.Wire.Encode.{key}
use social_timeline.Nanopb.Field.{
  Field, FieldIter, current, last_field, ltype, htype, atype, ltype_varint, ltype_uvarint,
  ltype_svarint, ltype_fixed32, ltype_fixed64, ltype_last_packable, ltype_bytes, ltype_string,
  ltype_submessage, ltype_extension, ltype_fixed_length_bytes,
}
use social_timeline.Nanopb.Field.{
  htype_required, htype_optional, htype_repeated, htype_oneof, atype_static, atype_pointer,
  atype_callback, add_offset, pb_field_iter_begin, pb_field_iter_next,
}
use social_timeline.Nanopb.Memory.{
  Memory, load, load_signed, load_pointer, load_size, load_bool, bytes_at, array_size, array_bytes,
  funcs, arg,
}
use social_timeline.Nanopb.Memory.Extension.{dest, next, type_encode, type_arg}
use social_timeline.Nanopb.Encode.Scalars.{integer_size, enc_string_size}
use social_timeline.Nanopb.Encode.Default.{pb_check_proto3_default_value}
use social_timeline.Nanopb.Encode.Fields.{entry}

abbrev pub Bytes : Type 0
Bytes = Option (List ℕ)

abbrev pub both : Bytes → Bytes → Bytes
both none b = none
both (some a) none = none
both (some a) (some b) = some (a ++ b)

-- A string: its length, and its bytes.
abbrev pub string : List ℕ → List ℕ
string body = varint 9 (length body) ++ body

abbrev pub prefixed : Bytes → Bytes
prefixed none = none
prefixed (some body) = some (string body)

abbrev pub tag_with : ℕ → Field → Bytes
tag_with wire_type field = some (varint 9 (key wire_type (field.tag % 2 ^ 61)))

-- The tag of a field, with the wire type of its values.
unfoldable pub tag_bytes : Field → Bytes
tag_bytes field =
    let t = ltype field.type in
    if (t == ltype_varint) || ((t == ltype_uvarint) || (t == ltype_svarint))
    then tag_with wt_varint field
    else if t == ltype_fixed32
    then tag_with wt_32bit field
    else if t == ltype_fixed64
    then tag_with wt_64bit field
    else if (t == ltype_bytes)
        || ((t == ltype_string) || ((t == ltype_submessage) || (t == ltype_fixed_length_bytes)))
    then tag_with wt_string field
    else none

-- The entries of an array.
unfoldable pub entries : (ℕ → Bytes) → ℕ → ℕ → ℕ → Bytes
entries body data_size zero p = some []
entries body data_size (suc count) p = both (body p) (entries body data_size count (p + data_size))

-- The value of a bytes field, which has to fit where it is stored.
unfoldable pub bytes_value : Memory → Field → ℕ → Bytes
bytes_value m field src =
    if src == 0
    then some (string [])
    else if (atype field.type == atype_static) && ltb field.data_size (u64 (array_size m src + 4))
    then none
    else some (string (bytes_at m (array_size m src) (array_bytes src)))

-- What callbacks and extensions of the program write.
pub record Content : Type 0 where
  pub memory : Memory
  pub descriptors : ℕ → List Field
  pub callback_bytes : ℕ → Field → ℕ → Bytes
  pub extension_bytes : ℕ → ℕ → Bytes

module _ (content : Content) (nested : List Field → ℕ → Bytes) (is_default : Field → ℕ → Bool) where
  abbrev m : Memory
  m = content.memory

  -- A value of a field of the type `t`, at the address `src`.
  unfoldable pub value_bytes : ℕ → Field → ℕ → Bytes
  value_bytes t field src =
      let integer = λ (v : ℕ). if integer_size field.data_size then some (varint 9 v) else none in
      if t == ltype_varint
      then integer (load_signed m field.data_size src)
      else if t == ltype_uvarint
      then integer (load m field.data_size src)
      else if t == ltype_svarint
      then integer (zigzag (load_signed m field.data_size src))
      else if t == ltype_fixed32
      then some (fixed32_bytes (load m 4 src))
      else if t == ltype_fixed64
      then some (fixed64_bytes (load m 8 src))
      else if t == ltype_bytes
      then bytes_value m field src
      else if t == ltype_string
      then some (string (bytes_at m (enc_string_size m field src) src))
      else if t == ltype_submessage
      then (if field.ptr == 0 then none else prefixed (nested (content.descriptors field.ptr) src))
      else if t == ltype_fixed_length_bytes
      then some (string (bytes_at m field.data_size src))
      else none

  abbrev pub one : Field → ℕ → Bytes
  one field value = both (tag_bytes field) (value_bytes (ltype field.type) field value)

  -- An array is packed where its type allows it.
  unfoldable pub array_of : Field → ℕ → ℕ → Bytes
  array_of field p_data count =
      if count == 0
      then some []
      else if not (atype field.type == atype_pointer) && ltb field.array_size count
      then none
      else if leb (ltype field.type) ltype_last_packable
      then both (tag_with wt_string field)
          (prefixed (entries (value_bytes (ltype field.type) field) field.data_size count p_data))
      else entries (λ p. one field (entry m field p)) field.data_size count p_data

  -- Whether a field without a has-field of its own is present.
  unfoldable pub is_present : Field → ℕ → Bool
  is_present field p_data =
      if atype field.type == atype_pointer
      then not (load_pointer m p_data == 0)
      else if not (field.size_offset == 0)
      then false
      else if htype field.type == htype_optional
      then not (is_default field p_data)
      else true

  unfoldable pub basic_bytes : Field → ℕ → ℕ → Bytes
  basic_bytes field p_data value =
      let p_size = add_offset p_data field.size_offset in
      let h = htype field.type in
      if h == htype_required
      then (if value == 0 then none else one field value)
      else if h == htype_optional
      then (if (if field.size_offset == 0 then is_present field p_data else load_bool m p_size)
          then one field value
          else some [])
      else if h == htype_repeated
      then array_of field value
          (if field.size_offset == 0 then field.array_size else load_size m p_size)
      else if h == htype_oneof
      then (if load_size m p_size == field.tag then one field value else some [])
      else none

  unfoldable pub field_bytes : Field → ℕ → Bytes
  field_bytes field p_data =
      let a = atype field.type in
      if (a == atype_static) || (a == atype_pointer)
      then basic_bytes field p_data (if a == atype_pointer then load_pointer m p_data else p_data)
      else if a == atype_callback
      then (if funcs m p_data == 0
          then some []
          else content.callback_bytes (funcs m p_data) field (arg p_data))
      else none

  -- An extension of the default handler.
  unfoldable pub default_extension : ℕ → Bytes
  default_extension extension =
      let field = get_or (content.descriptors (type_arg m extension)) 0 last_field in
      if atype field.type == atype_pointer
      then field_bytes field (dest extension)
      else field_bytes field (load_pointer m (dest extension))

  unfoldable pub extensions : ℕ → ℕ → Bytes
  extensions zero extension = if extension == 0 then some [] else none
  extensions (suc links) extension =
      let rest = extensions links (next m extension) in
      let first =
        if type_encode m extension == 0
        then default_extension extension
        else content.extension_bytes (type_encode m extension) extension in
      if extension == 0 then some [] else both first rest

module _ (content : Content) where
  unfoldable pub current_bytes : (List Field → ℕ → Bytes) → ℕ → FieldIter → Bytes
  current_bytes nested depth it =
      let is_default =
        pb_check_proto3_default_value content.memory content.descriptors (suc depth) in
      if ltype (current it).type == ltype_extension
      then extensions content nested is_default depth (load_pointer content.memory it.p_data)
      else field_bytes content nested is_default (current it) it.p_data

  unfoldable pub fields_bytes : (FieldIter → Bytes) → ℕ → FieldIter → Bytes
  fields_bytes body zero it = some []
  fields_bytes body (suc fuel) it =
      let rest = fields_bytes body fuel (pb_field_iter_next it).0 in
      both (body it) (if (pb_field_iter_next it).1 then rest else some [])

  -- The bytes of a message whose submessages are nested less than `depth` deep.
  unfoldable pub message_bytes : ℕ → List Field → ℕ → Bytes
  message_bytes zero fields src = none
  message_bytes (suc depth) fields src =
      let begin = pb_field_iter_begin fields src in
      if begin.1
      then fields_bytes (current_bytes (message_bytes depth) depth) (length fields) begin.0
      else some []
