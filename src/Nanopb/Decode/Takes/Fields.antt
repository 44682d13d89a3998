-- ===== src/Nanopb/Decode/Takes/Fields.antt =====
-- The functions of pb_decode.c for callback fields and `decode_field` never add to what the stream has
-- left.
use social_timeline.Common.{ℕ, zero, suc, ◌≤◌, ◌≡◌, refl}
use social_timeline.Common.{List, length, ◌==◌, ◌||◌, not, if-cases}
use native.Mathlib.Nat.{le_refl}
use social_timeline.Nanopb.Outcome.{Errmsg, Outcome, ok, fail, Run, left}
use social_timeline.Nanopb.Outcome.Takes.{
  Takes, takes, at_most, Takes-bind, Takes-then, Takes-if, Takes-either, Takes-test, Takes-pure,
}
use social_timeline.Nanopb.Istream.{Istream, pb_istream_from_buffer}
use social_timeline.Nanopb.Wire.{wt_string, pb_skip_field}
use social_timeline.Nanopb.Wire.Takes.{
  pb_skip_field-Takes, pb_make_string_substream-Takes, read_raw_value-Takes,
}
use social_timeline.Nanopb.Field.{
  Field, FieldIter, current, ltype, htype, atype, htype_oneof, atype_static, atype_pointer,
  atype_callback,
}
use social_timeline.Nanopb.Memory.{load_size, funcs}
use social_timeline.Nanopb.Decode.State.{Decoding, DecoderProgram, on_stream, closing}
use social_timeline.Nanopb.Decode.Takes.{
  same_le, remaining, on_stream-Takes, refuse-Takes, update-Takes, reads-Takes, closing-left,
}
use social_timeline.Nanopb.Field.{pb_field_iter_find}
use social_timeline.Nanopb.Decode.Release.{pb_release_single_field}
use social_timeline.Nanopb.Decode.Nested.{decoder_for}
use social_timeline.Nanopb.Decode.Fields.{
  find_new, pb_release_union_field, decode_by_atype, decode_field,
}
use social_timeline.Nanopb.Decode.Callback.{
  put_back, call_decode, after_call, callback_loop, decode_callback_field,
}
use social_timeline.Nanopb.Decode.Takes.Values.{decoder_for-Takes}
use social_timeline.Nanopb.Decode.Takes.Static.{decode_static_field-Takes}
use social_timeline.Nanopb.Decode.Takes.Pointer.{decode_pointer_field-Takes}

module _ {S : Type 0} (program : DecoderProgram S) (it : FieldIter) where
  after_call-at_most :
      (s : Istream S) (next : Decoding S → Outcome (Decoding S) (Unit {0}))
      (o : Outcome (Decoding S) (Unit {0}))
      → ((d : Decoding S) → remaining (left (next d)) ≤ s.bytes_left)
      → remaining (left (after_call program it s next o)) ≤ s.bytes_left
  unfolding after_call
  after_call-at_most s next (fail d) h =
      at_most (refuse-Takes {A = Unit {0}} Errmsg.callback_failed) (record d { stream = s })
  after_call-at_most s next (ok _ d) h =
      if-cases (λ (o : Outcome (Decoding S) (Unit {0})). remaining (left o) ≤ s.bytes_left)
        (d.stream.bytes_left == 0) (closing s (ok tt d)) (next d)
        (same_le (closing-left s (ok tt d)) (le_refl s.bytes_left)) (h d)

  callback_loop-at_most :
      (rounds : ℕ) (s : Istream S) (d : Decoding S)
      → remaining (left (callback_loop program it rounds s d)) ≤ s.bytes_left
  unfolding callback_loop
  callback_loop-at_most zero s d = le_refl s.bytes_left
  callback_loop-at_most (suc rounds) s d =
      after_call-at_most s (callback_loop program it rounds s) (call_decode program it d)
        (callback_loop-at_most rounds s)

  put_back-left :
      (s : Istream S) (o : Outcome (Decoding S) (Unit {0}))
      → remaining (left (put_back s o)) ≡ s.bytes_left
  unfolding put_back
  put_back-left s (ok _ d) = refl
  put_back-left s (fail d) = refl

  decode_callback_field-Takes :
      (wire_type : ℕ) → Takes (remaining {S = S}) (decode_callback_field program it wire_type)
  unfolding decode_callback_field
  decode_callback_field-Takes wire_type =
      Takes-test (λ d. (it.p_data == 0) || (funcs d.machine.memory it.p_data == 0))
        (on_stream (pb_skip_field wire_type)) _ (on_stream-Takes (pb_skip_field-Takes wire_type))
        (Takes-either (wire_type == wt_string)
          (Takes-bind (on_stream-Takes pb_make_string_substream-Takes) λ sub.
            takes
              λ d. callback_loop-at_most (suc sub.bytes_left) d.stream (record d { stream = sub }))
          (Takes-bind (on_stream-Takes (read_raw_value-Takes wire_type 10)) λ bytes. takes λ d.
            same_le
              (put_back-left d.stream (
                call_decode program it
                  (record d { stream = pb_istream_from_buffer bytes (length bytes) })))
              (le_refl (remaining d))))

module _ {S : Type 0} (program : DecoderProgram S) (depth : ℕ)
    (noinit : List Field → ℕ → Run (Decoding S) (Unit {0})) where
  pub find_new-Takes :
      (new_tag : ℕ) (it : FieldIter) → Takes (remaining {S = S}) (find_new program depth new_tag it)
  unfolding find_new
  find_new-Takes new_tag it = Takes-if _ (Takes-pure _) (refuse-Takes Errmsg.iterator_error)

  release_union-Takes :
      (it : FieldIter) → Takes (remaining {S = S}) (pb_release_union_field program depth it)
  unfolding pb_release_union_field
  release_union-Takes it = Takes-bind (reads-Takes (λ m. load_size m it.p_size)) λ old_tag.
      let old = pb_field_iter_find old_tag it in
      Takes-if ((old_tag == 0) || (old_tag == (current it).tag)) (Takes-pure it) (
        Takes-if (not old.1) (refuse-Takes Errmsg.invalid_union_tag) (
          Takes-then (update-Takes (pb_release_single_field program.descriptors depth old.0))
            (find_new-Takes (current it).tag old.0)))

  by_atype-Takes :
      (wire_type : ℕ) (it : FieldIter)
      → Takes (remaining {S = S}) (decode_by_atype program depth noinit wire_type it)
  unfolding decode_by_atype
  by_atype-Takes wire_type it =
      let func = decoder_for program depth noinit (ltype (current it).type) in
      let func-Takes = decoder_for-Takes program depth noinit (ltype (current it).type) in
      let a = atype (current it).type in
      Takes-if (a == atype_static)
        (decode_static_field-Takes func it func-Takes program.descriptors depth wire_type)
        (Takes-if (a == atype_pointer)
          (decode_pointer_field-Takes func it func-Takes program depth wire_type)
          (Takes-if (a == atype_callback) (decode_callback_field-Takes program it wire_type)
            (refuse-Takes Errmsg.invalid_field_type)))

  pub decode_field-Takes :
      (wire_type : ℕ) (it : FieldIter)
      → Takes (remaining {S = S}) (decode_field program depth noinit wire_type it)
  unfolding decode_field
  decode_field-Takes wire_type it =
      Takes-bind
        (Takes-if (htype (current it).type == htype_oneof) (release_union-Takes it) (Takes-pure it))
        λ it'. Takes-then (by_atype-Takes wire_type it') (Takes-pure it')
