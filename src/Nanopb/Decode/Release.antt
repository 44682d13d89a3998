-- ===== src/Nanopb/Decode/Release.antt =====
-- `pb_release_single_field` and `pb_release` of pb_decode.c.
pub mod Again
use social_timeline.Common.{
  ℕ, zero, suc, ◌+◌, true, false, List, ◌&&◌, ◌||◌, length, not, ltb, ◌==◌, if◌then◌else◌,
}
use social_timeline.Nanopb.Field.{
  Field, FieldIter, current, ltype, htype, atype, ltype_bytes, ltype_string, ltype_submessage,
  ltype_extension, htype_repeated, htype_oneof, atype_static, atype_pointer, pb_field_iter_begin,
  pb_field_iter_next,
}
use social_timeline.Nanopb.Memory.{load_pointer, load_size, store}
use social_timeline.Nanopb.Memory.Extension.{next}
use social_timeline.Nanopb.Heap.{Machine, pb_free}
use social_timeline.Nanopb.Decode.Default.{iter_from_extension}

-- An assignment through a pointer.
unfoldable pub put : ℕ → ℕ → ℕ → Machine → Machine
put size address v x = record x { memory = store x.memory size address v }

-- `count` before the loop over submessages.
unfoldable pub item_count : FieldIter → Machine → ℕ
item_count it x =
    let field = current it in
    let static = atype field.type == atype_static in
    let count =
      if static && (it.p_size == it.p_data)
      then field.array_size
      else load_size x.memory it.p_size in
    if htype field.type == htype_repeated
    then (if static && ltb field.array_size count then field.array_size else count)
    else 1

unfoldable pub first_item : FieldIter → Machine → ℕ
first_item it x =
    if atype (current it).type == atype_pointer then load_pointer x.memory it.p_data else it.p_data

-- `while (count--)` over submessages.
unfoldable pub release_items : (ℕ → Machine → Machine) → ℕ → ℕ → ℕ → Machine → Machine
release_items release data_size zero p x = x
release_items release data_size (suc count) p x =
    release_items release data_size count (p + data_size) (release p x)

-- `while (count--)` over the entries of a repeated string or bytes array.
unfoldable pub release_entries : ℕ → ℕ → Machine → Machine
unfolding put
release_entries zero p x = x
release_entries (suc count) p x =
    release_entries count (p + 8) (put 8 p 0 (pb_free (load_pointer x.memory p) x))

-- The entries of a pointer field, when it is a repeated string or bytes array.
unfoldable pub release_array : FieldIter → Machine → Machine
release_array it x =
    let type = (current it).type in
    if (htype type == htype_repeated)
      && ((ltype type == ltype_string) || (ltype type == ltype_bytes))
    then release_entries (load_size x.memory it.p_size) (load_pointer x.memory it.p_data) x
    else x

unfoldable pub clear_count : FieldIter → Machine → Machine
unfolding put
clear_count it x = if htype (current it).type == htype_repeated then put 4 it.p_size 0 x else x

-- `pb_free(*(void**)iter->pData); *(void**)iter->pData = NULL;`
unfoldable pub release_main : FieldIter → Machine → Machine
unfolding put
release_main it x = put 8 it.p_data 0 (pb_free (load_pointer x.memory it.p_data) x)

-- The branch for pointer fields.
unfoldable pub release_pointer : FieldIter → Machine → Machine
unfolding release_array clear_count release_main
release_pointer it x =
    if atype (current it).type == atype_pointer
    then release_main it (clear_count it (release_array it x))
    else x

module _ (descriptors : ℕ → List Field) where
  -- The loop over an extension list; the second argument bounds its length.
  unfoldable pub release_extensions : (FieldIter → Machine → Machine) → ℕ → ℕ → Machine → Machine
  release_extensions release_field zero ext x = x
  release_extensions release_field (suc links) ext x =
      let x1 = release_field (iter_from_extension descriptors x.memory ext) x in
      let rest = release_extensions release_field links (next x1.memory ext) x1 in
      if ext == 0 then x else rest

  -- The do-while loop of `pb_release`; the array bounds its rounds.
  unfoldable pub release_fields :
      (FieldIter → Machine → Machine) → ℕ → FieldIter → Machine → Machine
  release_fields release_field zero it x = x
  release_fields release_field (suc fuel) it x =
      let rest = release_fields release_field fuel (pb_field_iter_next it).0 (release_field it x) in
      if (pb_field_iter_next it).1 then rest else release_field it x

  unfoldable pub release_message :
      (FieldIter → Machine → Machine) → List Field → ℕ → Machine → Machine
  release_message release_field fields dest_struct x =
      let begin = pb_field_iter_begin fields dest_struct in
      if dest_struct == 0
      then x
      else if begin.1
      then release_fields release_field (length fields) begin.0 x
      else x

  -- What an extension or a submessage holds.
  unfoldable pub release_inside :
      (FieldIter → Machine → Machine) → ℕ → FieldIter → Machine → Machine
  release_inside release_field links it x =
      let field = current it in
      if ltype field.type == ltype_extension
      then release_extensions release_field links (load_pointer x.memory it.p_data) x
      else if (ltype field.type == ltype_submessage) && not (first_item it x == 0)
      then release_items (release_message release_field (descriptors field.ptr)) field.data_size
          (item_count it x) (first_item it x) x
      else x

  -- One level of the recursion into submessages and extensions.
  unfoldable pub release_one : (FieldIter → Machine → Machine) → ℕ → FieldIter → Machine → Machine
  release_one release_field links it x =
      let field = current it in
      if (htype field.type == htype_oneof) && not (load_size x.memory it.p_size == field.tag)
      then x
      else release_pointer it (release_inside release_field links it x)

  -- The first argument bounds the nesting of submessages and the length of an extension list; beyond
  -- it nothing is released.
  unfoldable pub pb_release_single_field : ℕ → FieldIter → Machine → Machine
  pb_release_single_field zero it x = x
  pb_release_single_field (suc depth) it x = release_one (pb_release_single_field depth) depth it x

  unfoldable pub pb_release : ℕ → List Field → ℕ → Machine → Machine
  pb_release depth = release_message (pb_release_single_field depth)
