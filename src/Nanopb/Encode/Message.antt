-- ===== src/Nanopb/Encode/Message.antt =====
-- `pb_encode` of pb_encode.c, and the functions that call it.
use social_timeline.Common.{
  ℕ, zero, suc, Option, none, some, List, [], ◌∷◌, length, ◌==◌, if◌then◌else◌,
}
use social_timeline.Nanopb.Outcome.{Outcome, ok, fail, Run, pure, ◌>>◌}
use social_timeline.Nanopb.Ostream.{Ostream, pb_write, sizing_stream}
use social_timeline.Nanopb.Field.{
  Field, FieldIter, current, ltype, ltype_extension, pb_field_iter_begin, pb_field_iter_next,
}
use social_timeline.Nanopb.Memory.{Program}
use social_timeline.Nanopb.Encode.Default.{pb_check_proto3_default_value}
use social_timeline.Nanopb.Encode.Nested.{encode_submessage}
use social_timeline.Nanopb.Encode.Fields.{encode_field, encode_extension_field}

-- The answer of `pb_get_encoded_size`, with the `*size` of a true one.
abbrev pub encoded_size : {S : Type 0} → Outcome (Ostream S) (Unit {0}) → Option ℕ
encoded_size (ok _ stream) = some stream.bytes_written
encoded_size (fail stream) = none

module _ {S : Type 0} (program : Program (Run (Ostream S) (Unit {0}))) where
  -- The body of the loop of `pb_encode`; extensions are encoded apart.
  unfoldable pub encode_current :
      (List Field → ℕ → Run (Ostream S) (Unit {0})) → ℕ → FieldIter → Run (Ostream S) (Unit {0})
  encode_current nested depth it =
      if ltype (current it).type == ltype_extension
      then encode_extension_field program nested
          (pb_check_proto3_default_value program.memory program.descriptors (suc depth)) depth
          it.p_data
      else encode_field program nested
          (pb_check_proto3_default_value program.memory program.descriptors (suc depth))
          (current it) it.p_data

  -- The do-while loop; the array bounds its rounds.
  unfoldable pub encode_fields :
      (FieldIter → Run (Ostream S) (Unit {0})) → ℕ → FieldIter → Run (Ostream S) (Unit {0})
  encode_fields body zero it = pure tt
  encode_fields body (suc fuel) it =
      let rest = encode_fields body fuel (pb_field_iter_next it).0 in
      body it >> (if (pb_field_iter_next it).1 then rest else pure tt)

  -- `pb_encode` with submessages by `nested`.
  unfoldable pub encode_message :
      (List Field → ℕ → Run (Ostream S) (Unit {0}))
      → ℕ
      → List Field
      → ℕ
      → Run (Ostream S) (Unit {0})
  encode_message nested depth fields src =
      let begin = pb_field_iter_begin fields src in
      if begin.1
      then encode_fields (encode_current nested depth) (length fields) begin.0
      else pure tt

  -- `pb_encode`. The first argument bounds the nesting of submessages and the length of an extension
  -- list; where it runs out, the encoder says false.
  unfoldable pub pb_encode : ℕ → List Field → ℕ → Run (Ostream S) (Unit {0})
  pb_encode zero fields src = fail
  pb_encode (suc depth) fields src = encode_message (pb_encode depth) depth fields src

  unfoldable pub pb_encode_submessage : ℕ → List Field → ℕ → Run (Ostream S) (Unit {0})
  pb_encode_submessage depth fields src = encode_submessage (pb_encode depth fields src)

  unfoldable pub pb_encode_delimited : ℕ → List Field → ℕ → Run (Ostream S) (Unit {0})
  pb_encode_delimited depth fields src = pb_encode_submessage depth fields src

  unfoldable pub pb_encode_nullterminated : ℕ → List Field → ℕ → Run (Ostream S) (Unit {0})
  pb_encode_nullterminated depth fields src = pb_encode depth fields src >> pb_write (0 ∷ []) 1

  -- `pb_get_encoded_size`; `null` stands for the state of the sizing stream.
  unfoldable pub pb_get_encoded_size : S → ℕ → List Field → ℕ → Option ℕ
  pb_get_encoded_size null depth fields src =
      encoded_size (pb_encode depth fields src (sizing_stream null))
