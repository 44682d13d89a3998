-- ===== src/Nanopb/Encode/Runs.antt =====
-- A message with a number and a submessage, encoded, and the theorems on it.
use social_timeline.Common.{
  ℕ, zero, suc, ◌<◌, ◌≡◌, refl, arith, some, none, List, [], ◌∷◌, All, IsByte, length, drop, get_or,
  ◌%◌, ◌==◌,
}
use social_timeline.Nanopb.Outcome.{ok, fail}
use social_timeline.Nanopb.Ostream.{pb_ostream_from_buffer, pb_write}
use social_timeline.Nanopb.Ostream.Bounds.{holding}
use social_timeline.Nanopb.Varint.Bytes.{varint}
use social_timeline.Nanopb.Wire.Encode.{Encodes, Encodes-write}
use social_timeline.Nanopb.Field.{
  Field, last_field, pb_field_iter_begin, pb_field_iter_next, step_over, add_offset, field_extent,
}
use social_timeline.Nanopb.Memory.{Memory, load, load_pointer}
use social_timeline.Nanopb.Encode.Default.{pb_check_proto3_default_value}
use social_timeline.Nanopb.Encode.Nested.{encode_submessage}
use social_timeline.Nanopb.Encode.Message.{pb_encode, pb_get_encoded_size, pb_encode_delimited}
use social_timeline.Nanopb.Encode.Spec.{
  string, message_bytes, fields_bytes, current_bytes, field_bytes, basic_bytes, value_bytes,
  tag_bytes,
}
use social_timeline.Nanopb.Encode.Values.{refused}
use social_timeline.Nanopb.Encode.Submessage.{encode_submessage-Encodes}
use social_timeline.Nanopb.Encode.Refines.{Setting, program, content}
use social_timeline.Nanopb.Encode.Sizes.{
  pb_encode_into_buffer, pb_get_encoded_size-bytes, pb_encode_delimited-Encodes,
}
use social_timeline.Nanopb.Encode.Pointers.{string_pointer, pb_check_proto3_default_value_pointer}

-- `uint32 = 150` at the address 1, and a submessage with `uint32 = 5` behind it.
abbrev cells : List ℕ
cells = 0 ∷ 150 ∷ 0 ∷ 0 ∷ 0 ∷ 5 ∷ 0 ∷ 0 ∷ 0 ∷ []

abbrev number : Field
number = record {
  tag = 1;
  type = 1;
  data_offset = 0;
  size_offset = 0;
  data_size = 4;
  array_size = 0;
  ptr = 0;
}

abbrev submessage : Field
submessage = record {
  tag = 2;
  type = 7;
  data_offset = 0;
  size_offset = 0;
  data_size = 4;
  array_size = 0;
  ptr = 1;
}

abbrev inner : List Field
inner = number ∷ last_field ∷ []

abbrev outer : List Field
outer = number ∷ submessage ∷ last_field ∷ []

get_or-IsByte : (l : List ℕ) (a : ℕ) → All IsByte l → get_or l a 0 < 256
get_or-IsByte [] a h = omega arith
get_or-IsByte (b ∷ l) zero (p, h) = p
get_or-IsByte (b ∷ l) (suc a) (p, h) = get_or-IsByte l a h

cells-IsByte : All IsByte cells
cells-IsByte = (
  omega arith,
  (
    omega arith,
    (
      omega arith,
      (omega arith, (omega arith, (omega arith, (omega arith, (omega arith, (omega arith, tt)))))),
    ),
  ),
)

abbrev setting : Setting
setting = record {
  memory = λ a. get_or cells a 0;
  is_memory = λ a. get_or-IsByte cells a cells-IsByte;
  descriptors = λ _. inner;
  callback_encode = λ _ _ _. fail;
  extension_encode = λ _ _. fail;
  callback_bytes = λ _ _ _. none;
  extension_bytes = λ _ _. none;
  callbacks = λ _ _ _. refused;
  extends = λ _ _. refused;
}

abbrev encoding : List ℕ
encoding = 0x08 ∷ 0x96 ∷ 0x01 ∷ 0x12 ∷ 0x02 ∷ 0x08 ∷ 0x05 ∷ []

encoding_meant : message_bytes (content setting) 2 outer 1 ≡ some encoding
unfolding message_bytes fields_bytes current_bytes field_bytes basic_bytes value_bytes tag_bytes
    varint load pb_field_iter_begin pb_field_iter_next step_over add_offset field_extent
encoding_meant = refl

abbrev ten_bytes : List ℕ
ten_bytes = 9 ∷ 9 ∷ 9 ∷ 9 ∷ 9 ∷ 9 ∷ 9 ∷ 9 ∷ 9 ∷ 9 ∷ []

pb_encode_into_buffer_example :
    pb_encode (program setting) 2 outer 1 (pb_ostream_from_buffer ten_bytes 8)
    ≡ ok tt (holding encoding (drop (length encoding) ten_bytes) 8 (length encoding) none)
pb_encode_into_buffer_example =
    pb_encode_into_buffer setting 2 outer 1 encoding encoding_meant ten_bytes 8 (omega arith)
      (omega arith) (omega arith)

pb_get_encoded_size-bytes_example :
    pb_get_encoded_size (program setting) (record { memory = []; pos = 0 }) 2 outer 1
    ≡ some (length encoding)
pb_get_encoded_size-bytes_example =
    pb_get_encoded_size-bytes setting 2 outer 1 encoding encoding_meant
      (record { memory = []; pos = 0 }) (omega arith)

pb_encode_delimited-Encodes_example :
    Encodes (pb_encode_delimited (program setting) 2 outer 1) (string encoding)
pb_encode_delimited-Encodes_example =
    pb_encode_delimited-Encodes setting 2 outer 1 encoding encoding_meant

encode_submessage-Encodes_example :
    Encodes (encode_submessage (pb_write (5 ∷ 6 ∷ []) 2)) (string (5 ∷ 6 ∷ []))
encode_submessage-Encodes_example =
    encode_submessage-Encodes (pb_write (5 ∷ 6 ∷ []) 2) (5 ∷ 6 ∷ []) (Encodes-write (5 ∷ 6 ∷ []))

-- A pointer to the address 256 at the address 1.
abbrev pointer_cells : Memory
pointer_cells a = get_or (0 ∷ 0 ∷ 1 ∷ []) a 0

pb_check_proto3_default_value_pointer_example :
    pb_check_proto3_default_value pointer_cells (λ _. inner) 1 (string_pointer 3) 1
    ≡ (load_pointer pointer_cells 1 % 256 == 0)
pb_check_proto3_default_value_pointer_example =
    pb_check_proto3_default_value_pointer pointer_cells (λ _. inner) 0 3 1 (omega arith)
