-- ===== src/Nanopb/Encode/Pointers.antt =====
-- `pb_check_proto3_default_value` of pb_encode.c on a string field that is a pointer. By
-- PB_SINGULAR_POINTER of pb.h its `data_size` is that of one character.
use social_timeline.Common.{
  ℕ, suc, ◌+◌, ◌%◌, ◌<◌, ◌≡◌, refl, arith, Bool, true, false, ◌&&◌, List, ◌==◌,
}
use social_timeline.Nanopb.Field.{Field, atype_pointer, htype_optional, ltype_string}
use social_timeline.Nanopb.Memory.{Memory, load, load_pointer}
use social_timeline.Nanopb.Encode.Default.{
  default_value, singular_default, all_zero, pb_check_proto3_default_value,
}

-- A string pointer of proto3, without a has-field.
abbrev pub string_pointer : ℕ → Field
string_pointer tag = record {
  tag = tag;
  type = atype_pointer + htype_optional + ltype_string;
  data_offset = 0;
  size_offset = 0;
  data_size = 1;
  array_size = 0;
  ptr = 0;
}

and_true : (b : Bool) → (b && true) ≡ b
and_true true = refl
and_true false = refl

low_byte : (m : Memory) (p : ℕ) → m p < 256 → load_pointer m p % 256 ≡ m p
unfolding load
low_byte m p h = omega arith

-- `pb_check_proto3_default_value` takes such a field for a default as soon as the lowest byte of its pointer is 0, whatever the other
-- seven bytes are.
pub pb_check_proto3_default_value_pointer :
    (m : Memory) (descriptors : ℕ → List Field) (depth tag p : ℕ)
    → m p < 256
    → pb_check_proto3_default_value m descriptors (suc depth) (string_pointer tag) p
      ≡ (load_pointer m p % 256 == 0)
unfolding pb_check_proto3_default_value default_value singular_default all_zero
pb_check_proto3_default_value_pointer m descriptors depth tag p h =
    rw (low_byte m p h) (and_true (m p == 0))
