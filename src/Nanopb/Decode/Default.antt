-- ===== src/Nanopb/Decode/Default.antt =====
-- `pb_field_set_to_default` and `pb_message_set_to_defaults` of pb_decode.c, and the iterator over the
-- field of an extension.
use social_timeline.Common.{ℕ, zero, suc, List, ◌&&◌, ◌||◌, length, not, ◌==◌, if◌then◌else◌}
use social_timeline.Nanopb.Field.{
  Field, FieldIter, current, ltype, htype, atype, ltype_submessage, ltype_extension, htype_optional,
  htype_repeated, htype_oneof, atype_static, atype_pointer, pb_field_iter_begin, pb_field_iter_next,
}
use social_timeline.Nanopb.Memory.{Memory, load_pointer, store, store_byte, fill, copy}
use social_timeline.Nanopb.Memory.Extension.{dest, next, type_arg, found}

-- The descriptor arrays by their addresses.
module _ (descriptors : ℕ → List Field) where
  unfoldable pub iter_from_extension : Memory → ℕ → FieldIter
  unfolding pb_field_iter_begin
  iter_from_extension m extension =
      let at = load_pointer m (dest extension) in
      let it = (pb_field_iter_begin (descriptors (type_arg m extension)) at).0 in
      record it {
        p_data = if atype (current it).type == atype_pointer then dest extension else at;
        p_size = found extension;
      }

  -- The loop over an extension list; the second argument bounds its length.
  unfoldable pub set_extensions : (FieldIter → Memory → Memory) → ℕ → ℕ → Memory → Memory
  unfolding iter_from_extension
  set_extensions set_field zero ext m = m
  set_extensions set_field (suc links) ext m =
      let m1 = store_byte m (found ext) 0 in
      let m2 = set_field (iter_from_extension m1 ext) m1 in
      let rest = set_extensions set_field links (next m2 ext) m2 in if ext == 0 then m else rest

  -- The do-while loop of `pb_message_set_to_defaults`; the array bounds its rounds.
  unfoldable pub set_fields : (FieldIter → Memory → Memory) → ℕ → FieldIter → Memory → Memory
  set_fields set_field zero it m = m
  set_fields set_field (suc fuel) it m =
      let rest = set_fields set_field fuel (pb_field_iter_next it).0 (set_field it m) in
      if (pb_field_iter_next it).1 then rest else set_field it m

  unfoldable pub set_message : (FieldIter → Memory → Memory) → List Field → ℕ → Memory → Memory
  set_message set_field fields dest_struct m =
      let begin = pb_field_iter_begin fields dest_struct in
      if begin.1 then set_fields set_field (length fields) begin.0 m else m

  -- `if (init_data)`
  unfoldable pub init_data : (FieldIter → Memory → Memory) → FieldIter → Memory → Memory
  init_data set_field it m =
      let field = current it in
      if ltype field.type == ltype_submessage
      then set_message set_field (descriptors field.ptr) it.p_data m
      else if not (field.ptr == 0)
      then copy m it.p_data field.ptr field.data_size
      else fill m it.p_data 0 field.data_size

  unfoldable pub set_static : (FieldIter → Memory → Memory) → FieldIter → Memory → Memory
  set_static set_field it m =
      let h = htype (current it).type in
      if (h == htype_optional) && not (it.p_size == it.p_data)
      then init_data set_field it (store_byte m it.p_size 0)
      else if (h == htype_repeated) || (h == htype_oneof)
      then store m 4 it.p_size 0
      else init_data set_field it m

  unfoldable pub set_pointer : FieldIter → Memory → Memory
  set_pointer it m =
      let h = htype (current it).type in
      let m1 = store m 8 it.p_data 0 in
      if (h == htype_repeated) || (h == htype_oneof) then store m1 4 it.p_size 0 else m1

  -- One level of the recursion into submessages and extensions.
  unfoldable pub set_one : (FieldIter → Memory → Memory) → ℕ → FieldIter → Memory → Memory
  set_one set_field links it m =
      let type = (current it).type in
      if ltype type == ltype_extension
      then set_extensions set_field links (load_pointer m it.p_data) m
      else if atype type == atype_static
      then set_static set_field it m
      else if atype type == atype_pointer
      then set_pointer it m
      else m

  -- The first argument bounds the nesting of submessages and the length of an extension list; beyond
  -- it nothing is set.
  unfoldable pub pb_field_set_to_default : ℕ → FieldIter → Memory → Memory
  pb_field_set_to_default zero it m = m
  pb_field_set_to_default (suc depth) it m = set_one (pb_field_set_to_default depth) depth it m

  unfoldable pub pb_message_set_to_defaults : ℕ → List Field → ℕ → Memory → Memory
  pb_message_set_to_defaults depth = set_message (pb_field_set_to_default depth)
