-- ===== src/Nanopb/Encode/Refines.antt =====
-- `pb_encode` of pb_encode.c against the bytes that a message is meant to be encoded to.
use social_timeline.Common.{ℕ, zero, suc, ◌≡◌, refl, arith, ap}
use social_timeline.Common.{Bool, ◌||◌, List, [], length, ◌==◌}
use social_timeline.Nanopb.Outcome.{Run}
use social_timeline.Nanopb.Ostream.{Ostream, Buffer}
use social_timeline.Nanopb.Wire.{fixed32_bytes, fixed64_bytes}
use social_timeline.Nanopb.Wire.Encode.{
  Encodes-pure, pb_encode_fixed32-Encodes, pb_encode_fixed64-Encodes,
}
use social_timeline.Nanopb.Field.{
  Field, FieldIter, ltype, htype, atype, ltype_fixed32, ltype_fixed64,
}
use social_timeline.Nanopb.Memory.{Memory, load, Program, funcs, arg}
use social_timeline.Nanopb.Memory.Extension.{next, type_encode}
use social_timeline.Nanopb.Encode.Scalars.{
  pb_enc_fixed32, pb_enc_fixed64, pb_enc_string, pb_enc_fixed_length_bytes, enc_string_size,
}
use social_timeline.Nanopb.Encode.Fields
use social_timeline.Nanopb.Encode.Fields.{
  after_callback, call_back, encoder_for, encode_array, encode_by_htype, implicit_has,
  encode_basic_field, encode_callback_field, encode_field, default_extension_encoder,
  encode_extensions, encode_extension_field, pb_enc_submessage, entry,
}
use social_timeline.Nanopb.Encode.Message.{encode_current, encode_fields, encode_message, pb_encode}
use social_timeline.Nanopb.Encode.Spec
use social_timeline.Nanopb.Encode.Spec.{
  Bytes, Content, string, value_bytes, bytes_value, array_of, is_present, basic_bytes, field_bytes,
  default_extension, extensions, current_bytes, fields_bytes, message_bytes,
}
use social_timeline.Nanopb.Encode.Values.{
  Refines, encoded, refused, Refines-then, Refines-if, Refines-prefixed, IsMemory,
}
use social_timeline.Nanopb.Encode.Values.{
  pb_encode_tag_for_field-Refines, pb_encode_tag-Refines, for_entries-Refines,
  pb_enc_varint-Refines, pb_enc_uvarint-Refines, pb_enc_svarint-Refines, pb_enc_bytes-Refines,
  string_at-Refines,
}
use social_timeline.Nanopb.Encode.Arrays.{HasWidth, entries-HasWidth, packed-Refines}

abbrev Encoding : Type 0
Encoding = Run (Ostream Buffer) (Unit {0})

-- A program over a memory of bytes, whose callbacks and extensions write what they are meant to.
pub record Setting : Type 0 where
  pub memory : Memory
  pub is_memory : IsMemory memory
  pub descriptors : ℕ → List Field
  pub callback_encode : ℕ → Field → ℕ → Encoding
  pub extension_encode : ℕ → ℕ → Encoding
  pub callback_bytes : ℕ → Field → ℕ → Bytes
  pub extension_bytes : ℕ → ℕ → Bytes
  pub callbacks :
      (f : ℕ) (field : Field) (arg : ℕ)
      → Refines (callback_encode f field arg) (callback_bytes f field arg)
  pub extends :
      (f extension : ℕ) → Refines (extension_encode f extension) (extension_bytes f extension)

abbrev pub program : Setting → Program Encoding
program setting = record {
  memory = setting.memory;
  descriptors = setting.descriptors;
  callback_encode = setting.callback_encode;
  extension_encode = setting.extension_encode;
}

abbrev pub content : Setting → Content
content setting = record {
  memory = setting.memory;
  descriptors = setting.descriptors;
  callback_bytes = setting.callback_bytes;
  extension_bytes = setting.extension_bytes;
}

module _ (setting : Setting) where
  module _ (nested : List Field → ℕ → Encoding) (nested_bytes : List Field → ℕ → Bytes)
      (deeper : (fields : List Field) (src : ℕ)
        → Refines (nested fields src) (nested_bytes fields src))
      (is_default : Field → ℕ → Bool) where
    encoder_for-Refines :
        (t : ℕ) (field : Field) (src : ℕ)
        → Refines
            (encoder_for (program setting) nested is_default t field src)
            (value_bytes (content setting) nested_bytes is_default t field src)
    unfolding encoder_for value_bytes pb_enc_fixed32 pb_enc_fixed64 pb_enc_string
        pb_enc_fixed_length_bytes pb_enc_submessage
    encoder_for-Refines t field src =
        Refines-if (t == 0) _ _ _ _
          (pb_enc_varint-Refines setting.memory setting.is_memory field src)
          (Refines-if (t == 1) _ _ _ _
            (pb_enc_uvarint-Refines setting.memory setting.is_memory field src)
            (Refines-if (t == 2) _ _ _ _
              (pb_enc_svarint-Refines setting.memory setting.is_memory field src)
              (Refines-if (t == 3) _ _ _ _
                (encoded _ (pb_encode_fixed32-Encodes (load setting.memory 4 src)))
                (Refines-if (t == 4) _ _ _ _
                  (encoded _ (pb_encode_fixed64-Encodes (load setting.memory 8 src)))
                  (Refines-if (t == 5) _ _ _ _
                    (pb_enc_bytes-Refines setting.memory setting.is_memory field src)
                    (Refines-if (t == 6) _ _ _ _
                      (string_at-Refines setting.memory setting.is_memory
                        (enc_string_size setting.memory field src) src)
                      (Refines-if (t == 7) _ _ _ _
                        (Refines-if (field.ptr == 0) _ _ _ _ refused
                          (Refines-prefixed _ _ (deeper (setting.descriptors field.ptr) src)))
                        (Refines-if (t == 9) _ _ _ _
                          (string_at-Refines setting.memory setting.is_memory field.data_size src)
                          refused))))))))

    one-Refines :
        (field : Field) (value : ℕ)
        → Refines
            (Fields.encode_one (program setting) nested is_default field value)
            (Spec.one (content setting) nested_bytes is_default field value)
    one-Refines field value =
        Refines-then _ _ _ _ (pb_encode_tag_for_field-Refines field)
          (encoder_for-Refines (ltype field.type) field value)

    -- The packed values of a fixed width.
    fixed32-HasWidth :
        (field : Field) (src : ℕ)
        → ltype field.type ≡ ltype_fixed32
        → HasWidth 4 1
            (value_bytes (content setting) nested_bytes is_default (ltype field.type) field src)
    unfolding value_bytes fixed32_bytes
    fixed32-HasWidth field src e = rw e refl

    fixed64-HasWidth :
        (field : Field) (src : ℕ)
        → ltype field.type ≡ ltype_fixed64
        → HasWidth 8 1
            (value_bytes (content setting) nested_bytes is_default (ltype field.type) field src)
    unfolding value_bytes fixed64_bytes
    fixed64-HasWidth field src e = rw e refl

    encode_array-Refines :
        (field : Field) (p_data count : ℕ)
        → Refines
            (encode_array setting.memory field p_data count
              (encoder_for (program setting) nested is_default (ltype field.type)))
            (array_of (content setting) nested_bytes is_default field p_data count)
    unfolding encode_array array_of
    encode_array-Refines field p_data count = Refines-if _ _ _ _ _ (encoded [] Encodes-pure) (
        Refines-if _ _ _ _ _ refused (
          Refines-if _ _ _ _ _
            (Refines-then _ _ _ _ (pb_encode_tag-Refines 2 field (omega arith)) (
              packed-Refines _ field count p_data _
                (for_entries-Refines _ _ field.data_size count p_data
                  (encoder_for-Refines (ltype field.type) field))
                (λ e.
                  entries-HasWidth 4 field.data_size count p_data _
                    (λ p. fixed32-HasWidth field p e))
                (λ e.
                  entries-HasWidth 8 field.data_size count p_data _
                    (λ p. fixed64-HasWidth field p e))))
            (for_entries-Refines _ _ field.data_size count p_data
              (λ p. one-Refines field (entry setting.memory field p)))))

    encode_by_htype-Refines :
        (field : Field) (p_data value : ℕ)
        → Refines
            (encode_by_htype (program setting) nested is_default field p_data value)
            (basic_bytes (content setting) nested_bytes is_default field p_data value)
    unfolding encode_by_htype basic_bytes implicit_has is_present
    encode_by_htype-Refines field p_data value =
        let one = one-Refines field value in
        let nothing = encoded [] Encodes-pure in
        Refines-if (htype field.type == 0) _ _ _ _ (Refines-if (value == 0) _ _ _ _ refused one) (
          Refines-if (htype field.type == 0x10) _ _ _ _ (Refines-if _ _ _ _ _ one nothing) (
            Refines-if (htype field.type == 0x20) _ _ _ _ (encode_array-Refines field value _) (
              Refines-if (htype field.type == 0x30) _ _ _ _ (Refines-if _ _ _ _ _ one nothing)
                refused)))

    call_back-Refines : (e : Encoding) (a : Bytes) → Refines e a → Refines (call_back e) a
    unfolding call_back after_callback
    call_back-Refines e _ refused = refused
    call_back-Refines e _ (encoded bytes (p, q)) = encoded bytes (
      λ done hole rest max n h room small. ap after_callback (p done hole rest max n h room small),
      λ s no_callback bounded small. ap after_callback (q s no_callback bounded small),
    )

    encode_field-Refines :
        (field : Field) (p_data : ℕ)
        → Refines
            (encode_field (program setting) nested is_default field p_data)
            (field_bytes (content setting) nested_bytes is_default field p_data)
    unfolding encode_field encode_basic_field encode_callback_field field_bytes
    encode_field-Refines field p_data =
        Refines-if ((atype field.type == 0) || (atype field.type == 0x80)) _ _ _ _
          (encode_by_htype-Refines field p_data _)
          (Refines-if (atype field.type == 0x40) _ _ _ _
            (Refines-if (funcs setting.memory p_data == 0) _ _ _ _ (encoded [] Encodes-pure) (
              call_back-Refines _ _
                (setting.callbacks (funcs setting.memory p_data) field (arg p_data))))
            refused)

    default_extension-Refines :
        (extension : ℕ)
        → Refines
            (default_extension_encoder (program setting) nested is_default extension)
            (default_extension (content setting) nested_bytes is_default extension)
    unfolding default_extension_encoder default_extension
    default_extension-Refines extension =
        Refines-if _ _ _ _ _ (encode_field-Refines _ _) (encode_field-Refines _ _)

    encode_extensions-Refines :
        (links extension : ℕ)
        → Refines
            (encode_extensions (program setting) nested is_default links extension)
            (extensions (content setting) nested_bytes is_default links extension)
    unfolding encode_extensions extensions
    encode_extensions-Refines zero extension =
        Refines-if (extension == 0) _ _ _ _ (encoded [] Encodes-pure) refused
    encode_extensions-Refines (suc links) extension =
        Refines-if (extension == 0) _ _ _ _ (encoded [] Encodes-pure) (
          Refines-then _ _ _ _
            (Refines-if (type_encode setting.memory extension == 0) _ _ _ _
              (default_extension-Refines extension)
              (setting.extends (type_encode setting.memory extension) extension))
            (encode_extensions-Refines links (next setting.memory extension)))

  encode_fields-Refines :
      (body : FieldIter → Encoding) (meant : FieldIter → Bytes)
      → ((it : FieldIter) → Refines (body it) (meant it))
      → (fuel : ℕ) (it : FieldIter)
      → Refines
          (encode_fields (program setting) body fuel it)
          (fields_bytes (content setting) meant fuel it)
  unfolding encode_fields fields_bytes
  encode_fields-Refines body meant each zero it = encoded [] Encodes-pure
  encode_fields-Refines body meant each (suc fuel) it = Refines-then _ _ _ _ (each it) (
      Refines-if _ _ _ _ _ (encode_fields-Refines body meant each fuel _) (encoded [] Encodes-pure))

  encode_current-Refines :
      (nested : List Field → ℕ → Encoding) (nested_bytes : List Field → ℕ → Bytes)
      → ((fields : List Field) (src : ℕ) → Refines (nested fields src) (nested_bytes fields src))
      → (depth : ℕ) (it : FieldIter)
      → Refines
          (encode_current (program setting) nested depth it)
          (current_bytes (content setting) nested_bytes depth it)
  unfolding encode_current current_bytes encode_extension_field
  encode_current-Refines nested nested_bytes deeper depth it =
      Refines-if _ _ _ _ _ (encode_extensions-Refines nested nested_bytes deeper _ depth _)
        (encode_field-Refines nested nested_bytes deeper _ _ _)

  -- `pb_encode` encodes every message to the bytes that are meant.
  pub pb_encode-Refines :
      (depth : ℕ) (fields : List Field) (src : ℕ)
      → Refines
          (pb_encode (program setting) depth fields src)
          (message_bytes (content setting) depth fields src)
  unfolding pb_encode message_bytes encode_message
  pb_encode-Refines zero fields src = refused
  pb_encode-Refines (suc depth) fields src =
      Refines-if _ _ _ _ _
        (encode_fields-Refines _ _
          (encode_current-Refines (pb_encode (program setting) depth)
            (message_bytes (content setting) depth) (pb_encode-Refines depth) depth)
          (length fields) _)
        (encoded [] Encodes-pure)
