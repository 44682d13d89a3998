-- ===== src/Nanopb/Decode/Fields.antt =====
-- `decode_field`, the release of an old union member, and extensions in pb_decode.c, over the
-- `pb_decode_noinit` of the messages one level deeper.
use social_timeline.Common.{
  ℕ, zero, suc, Bool, true, false, List, ◌||◌, ◌&&◌, length, not, ◌==◌, if◌then◌else◌,
}
use social_timeline.Nanopb.Outcome.{
  invalid_field_type, invalid_union_tag, iterator_error, ok, Run, bind, pure, ◌>>=◌, ◌>>◌,
}
use social_timeline.Nanopb.Field.{
  Field, FieldIter, current, ltype, htype, atype, ltype_extension, htype_oneof, atype_static,
  atype_pointer, atype_callback, pb_field_iter_next, pb_field_iter_find,
}
use social_timeline.Nanopb.Memory.{load_pointer, load_size}
use social_timeline.Nanopb.Memory.Extension.{next, type_decode, found, type_arg}
use social_timeline.Nanopb.Field.{pb_field_iter_begin}
use social_timeline.Nanopb.Decode.State.{
  Decoding, DecoderProgram, refuse, update, assign_bool, reads,
}
use social_timeline.Nanopb.Decode.Default.{iter_from_extension}
use social_timeline.Nanopb.Decode.Release.{pb_release_single_field}
use social_timeline.Nanopb.Decode.Nested.{decoder_for}
use social_timeline.Nanopb.Decode.Static.{decode_static_field}
use social_timeline.Nanopb.Decode.Pointer.{decode_pointer_field}
use social_timeline.Nanopb.Decode.Callback.{decode_callback_field}

-- The loop of `find_extension_field`, which ends after one turn round the array.
unfoldable pub find_extension_loop : ℕ → ℕ → FieldIter → FieldIter × Bool
find_extension_loop zero start it = (it, false)
find_extension_loop (suc fuel) start it =
    let it' = (pb_field_iter_next it).0 in
    let again = find_extension_loop fuel start it' in
    if ltype (current it).type == ltype_extension
    then (it, true)
    else if it'.pos == start
    then (it', false)
    else again

unfoldable pub find_extension_field : FieldIter → FieldIter × Bool
unfolding find_extension_loop
find_extension_field it = find_extension_loop (suc (length it.start)) it.pos it

module _ {S : Type 0} (program : DecoderProgram S) (depth : ℕ) where
  -- The search for the new field behind the release of the old one.
  unfoldable pub find_new : ℕ → FieldIter → Run (Decoding S) FieldIter
  find_new new_tag it =
      let again = pb_field_iter_find new_tag it in
      if again.1 then pure again.0 else refuse iterator_error

  -- The iterator that the call leaves is its result.
  unfoldable pub pb_release_union_field : FieldIter → Run (Decoding S) FieldIter
  unfolding find_new
  pb_release_union_field it = reads (λ m. load_size m it.p_size) >>= λ old_tag.
      let new_tag = (current it).tag in
      let old = pb_field_iter_find old_tag it in
      if (old_tag == 0) || (old_tag == new_tag)
      then pure it
      else if not old.1
      then refuse invalid_union_tag
      else update (pb_release_single_field program.descriptors depth old.0)
        >> find_new new_tag old.0

module _ {S : Type 0} (program : DecoderProgram S) (depth : ℕ)
    (noinit : List Field → ℕ → Run (Decoding S) (Unit {0})) where
  -- The switch of `decode_field`.
  unfoldable pub decode_by_atype : ℕ → FieldIter → Run (Decoding S) (Unit {0})
  decode_by_atype wire_type it =
      let type = (current it).type in
      let func = decoder_for program depth noinit (ltype type) in
      if atype type == atype_static
      then decode_static_field func it program.descriptors depth wire_type
      else if atype type == atype_pointer
      then decode_pointer_field program depth func it wire_type
      else if atype type == atype_callback
      then decode_callback_field program it wire_type
      else refuse invalid_field_type

  -- The iterator that the call leaves is its result.
  unfoldable pub decode_field : ℕ → FieldIter → Run (Decoding S) FieldIter
  unfolding decode_by_atype
  decode_field wire_type it =
      (if htype (current it).type == htype_oneof
        then pb_release_union_field program depth it
        else pure it)
      >>= λ it'. decode_by_atype wire_type it' >> pure it'

  unfoldable pub default_extension_decoder : ℕ → ℕ → ℕ → Run (Decoding S) (Unit {0})
  unfolding decode_field
  default_extension_decoder extension tag wire_type d =
      let m = d.machine.memory in
      let fields = program.descriptors (type_arg m extension) in
      if not ((current (pb_field_iter_begin fields 0).0).tag == tag)
      then ok tt d
      else (assign_bool (found extension) 1
            >> decode_field wire_type (iter_from_extension program.descriptors m extension)
            >> pure tt)
          d

  -- The decoder of one extension.
  unfoldable pub decode_by_extension : ℕ → ℕ → ℕ → Run (Decoding S) (Unit {0})
  unfolding default_extension_decoder
  decode_by_extension extension tag wire_type d =
      if not (type_decode d.machine.memory extension == 0)
      then program.extension_decode (type_decode d.machine.memory extension) extension tag wire_type
          d
      else default_extension_decoder extension tag wire_type d

  -- The loop over the extension list, until `bytes_left` is no longer `pos`; the first argument bounds
  -- the length of the list.
  unfoldable pub decode_extensions : ℕ → ℕ → ℕ → ℕ → ℕ → Run (Decoding S) (Unit {0})
  unfolding decode_by_extension
  decode_extensions zero pos tag wire_type extension d = ok tt d
  decode_extensions (suc links) pos tag wire_type extension d =
      let again =
        bind (decode_by_extension extension tag wire_type d)
          λ _ d'. decode_extensions links pos tag wire_type (next d'.machine.memory extension) d' in
      if not (extension == 0) && (pos == d.stream.bytes_left) then again else ok tt d

  unfoldable pub decode_extension : ℕ → ℕ → FieldIter → Run (Decoding S) (Unit {0})
  unfolding decode_extensions
  decode_extension tag wire_type it d =
      decode_extensions depth d.stream.bytes_left tag wire_type
        (load_pointer d.machine.memory it.p_data) d
