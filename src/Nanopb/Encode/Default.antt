-- ===== src/Nanopb/Encode/Default.antt =====
-- `pb_check_proto3_default_value` of pb_encode.c: whether a proto3 field has its default value, which
-- is not encoded.
use social_timeline.Common.{
  ℕ, zero, suc, Bool, true, false, List, ◌&&◌, length, not, ◌==◌, if◌then◌else◌,
}
use social_timeline.Nanopb.Field.{
  Field, FieldIter, current, ltype, htype, atype, ltype_bytes, ltype_string, ltype_submessage,
  ltype_fixed_length_bytes, htype_required, htype_repeated, htype_oneof, htype_optional,
  atype_static, add_offset, pb_field_iter_begin, pb_field_iter_next,
}
use social_timeline.Nanopb.Memory.{Memory, load_size, load_bool, array_size}

-- The catch-all loop: `count` bytes that are 0.
unfoldable pub all_zero : Memory → ℕ → ℕ → Bool
all_zero m zero p = true
all_zero m (suc count) p = (m p == 0) && all_zero m count (suc p)

module _ (m : Memory) (descriptors : ℕ → List Field) where
  -- The do-while loop over the fields of a submessage; the array bounds its rounds.
  unfoldable pub all_default : (Field → ℕ → Bool) → ℕ → FieldIter → Bool
  all_default is_default zero it = true
  all_default is_default (suc fuel) it =
      let rest = all_default is_default fuel (pb_field_iter_next it).0 in
      if is_default (current it) it.p_data
      then (if (pb_field_iter_next it).1 then rest else true)
      else false

  -- The submessage branch.
  unfoldable pub submessage_default : (Field → ℕ → Bool) → Field → ℕ → Bool
  submessage_default is_default field p_data =
      let fields = descriptors field.ptr in
      let begin = pb_field_iter_begin fields p_data in
      if begin.1 then all_default is_default (length fields) begin.0 else true

  -- The branches behind the tests on `PB_HTYPE`.
  unfoldable pub singular_default : (Field → ℕ → Bool) → Field → ℕ → Bool
  singular_default is_default field p_data =
      let static = atype field.type == atype_static in
      let t = ltype field.type in
      if static && (t == ltype_bytes)
      then array_size m p_data == 0
      else if static && (t == ltype_string)
      then m p_data == 0
      else if static && (t == ltype_fixed_length_bytes)
      then field.data_size == 0
      else if static && (t == ltype_submessage)
      then submessage_default is_default field p_data
      else all_zero m field.data_size p_data

  -- One level of the recursion into submessages.
  unfoldable pub default_value : (Field → ℕ → Bool) → Field → ℕ → Bool
  default_value is_default field p_data =
      let p_size = add_offset p_data field.size_offset in
      let h = htype field.type in
      if h == htype_required
      then false
      else if h == htype_repeated
      then load_size m p_size == 0
      else if h == htype_oneof
      then load_size m p_size == 0
      else if (h == htype_optional) && not (field.size_offset == 0)
      then not (load_bool m p_size)
      else singular_default is_default field p_data

  -- The first argument bounds the nesting of the submessages; beyond it nothing is at its default.
  unfoldable pub pb_check_proto3_default_value : ℕ → Field → ℕ → Bool
  pb_check_proto3_default_value zero field p_data = false
  pb_check_proto3_default_value (suc depth) field p_data =
      default_value (pb_check_proto3_default_value depth) field p_data
