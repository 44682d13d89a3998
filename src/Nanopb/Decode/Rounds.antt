-- ===== src/Nanopb/Decode/Rounds.antt =====
-- What a round of the loop of `pb_decode_noinit` in pb_decode.c does with the stream: it never adds to
-- what is left.
pub mod Ends
use social_timeline.Common.{ℕ, zero, suc, ◌-◌, ◌≤◌, ◌<◌, ◌≡◌, refl, arith}
use social_timeline.Common.{Bool, List, leb, ◌==◌, ◌&&◌, not, if◌then◌else◌, some, ap, ◌^◌}
use native.Mathlib.Nat.{le_refl, le_trans}
use social_timeline.Nanopb.Outcome.{Errmsg, Outcome, ok, fail, Run, bind, left, pure, ◌>>=◌, ◌>>◌}
use social_timeline.Nanopb.Outcome.Takes.{
  Takes, takes, at_most, Takes-bind, Takes-then, Takes-if, Takes-either, Takes-test, Takes-pure,
}
use social_timeline.Nanopb.Istream.{Istream}
use social_timeline.Nanopb.Istream.Takes.{TakesSome}
use social_timeline.Nanopb.Wire.{Tag, pb_decode_tag}
use social_timeline.Nanopb.Wire.Takes.{pb_skip_field-Takes, pb_decode_tag-TakesSome}
use social_timeline.Nanopb.Field.{
  Field, current, htype, htype_repeated, pb_field_iter_find, pb_field_iter_begin,
}
use social_timeline.Nanopb.Memory.{load_pointer}
use social_timeline.Nanopb.Memory.Extension.{next, type_decode, found, type_arg}
use social_timeline.Nanopb.Heap.{Machine}
use social_timeline.Nanopb.Decode.State.{Decoding, DecoderProgram, refuse, assign, assign_bool}
use social_timeline.Nanopb.Decode.Default.{iter_from_extension}
use social_timeline.Nanopb.Decode.Takes.{
  remaining, on_stream-Takes, refuse-Takes, assign-Takes, assign_bool-Takes,
}
use social_timeline.Nanopb.Decode.Takes.Fields.{decode_field-Takes}
use social_timeline.Nanopb.Decode.Fields.{
  decode_field, default_extension_decoder, decode_by_extension, decode_extensions, decode_extension,
  find_extension_field,
}
use social_timeline.Nanopb.Decode.Message.{
  Progress, skip_unknown, try_extensions, decode_unknown, count_fixed, fixed_count_complete,
  is_counting, see_required, decode_known, decode_next, behind_tag, decode_loop,
}

-- The decoders that extensions have of their own never add to the stream.
abbrev pub ExtensionsTake : {S : Type 0} → DecoderProgram S → Type 0
ExtensionsTake {S} program =
    (decode extension tag wire_type : ℕ)
    → Takes (remaining {S = S}) (program.extension_decode decode extension tag wire_type)

module _ {S : Type 0} (program : DecoderProgram S) (depth : ℕ)
    (noinit : List Field → ℕ → Run (Decoding S) (Unit {0}))
    (extensions : ExtensionsTake program) where
  default_extension-Takes :
      (extension tag wire_type : ℕ)
      → Takes
          (remaining {S = S})
          (default_extension_decoder program depth noinit extension tag wire_type)
  unfolding default_extension_decoder
  default_extension-Takes extension tag wire_type =
      Takes-test
        (λ d. not (
          (current
            (pb_field_iter_begin (program.descriptors (type_arg d.machine.memory extension))
              0).0).tag
          == tag))
        (ok tt)
        (λ d.
          (assign_bool (found extension) 1
              >> decode_field program depth noinit wire_type
                  (iter_from_extension program.descriptors d.machine.memory extension)
              >> pure tt)
            d)
        (takes λ d. le_refl (remaining d))
        (takes λ d.
          at_most
            (Takes-then
              (Takes-then (assign_bool-Takes (found extension) 1) (
                decode_field-Takes program depth noinit wire_type
                  (iter_from_extension program.descriptors d.machine.memory extension)))
              (Takes-pure tt))
            d)

  by_extension-Takes :
      (extension tag wire_type : ℕ)
      → Takes (remaining {S = S}) (decode_by_extension program depth noinit extension tag wire_type)
  unfolding decode_by_extension
  by_extension-Takes extension tag wire_type =
      Takes-test (λ d. not (type_decode d.machine.memory extension == 0))
        (λ d.
          program.extension_decode (type_decode d.machine.memory extension) extension tag wire_type
            d)
        (default_extension_decoder program depth noinit extension tag wire_type)
        (takes λ d.
          at_most (extensions (type_decode d.machine.memory extension) extension tag wire_type) d)
        (default_extension-Takes extension tag wire_type)

  decode_extensions-Takes :
      (links pos tag wire_type extension : ℕ)
      → Takes
          (remaining {S = S})
          (decode_extensions program depth noinit links pos tag wire_type extension)
  unfolding decode_extensions
  decode_extensions-Takes zero pos tag wire_type extension = takes λ d. le_refl (remaining d)
  decode_extensions-Takes (suc links) pos tag wire_type extension =
      Takes-test (λ d. not (extension == 0) && (pos == d.stream.bytes_left))
        (decode_by_extension program depth noinit extension tag wire_type >>= λ _ d.
          decode_extensions program depth noinit links pos tag wire_type
            (next d.machine.memory extension) d)
        (ok tt)
        (Takes-bind (by_extension-Takes extension tag wire_type) λ _. takes λ d.
          at_most
            (decode_extensions-Takes links pos tag wire_type (next d.machine.memory extension)) d)
        (takes λ d. le_refl (remaining d))

  skip_unknown-Takes :
      (wire_type : ℕ) (p : Progress)
      → Takes (remaining {S = S}) (skip_unknown program depth noinit wire_type p)
  unfolding skip_unknown
  skip_unknown-Takes wire_type p =
      Takes-then (on_stream-Takes (pb_skip_field-Takes wire_type)) (Takes-pure p)

  after_extensions-at_most :
      (n pos wire_type : ℕ) (p : Progress) (o : Outcome (Decoding S) (Unit {0}))
      → remaining (left o) ≤ n
      → remaining (
          left (
            bind o λ _ d.
              if d.stream.bytes_left == pos
              then skip_unknown program depth noinit wire_type p d
              else ok p d))
        ≤ n
  after_extensions-at_most n pos wire_type p (fail d) h = h
  after_extensions-at_most n pos wire_type p (ok _ d) h =
      le_trans
        (at_most
          (Takes-test (λ d. d.stream.bytes_left == pos)
            (skip_unknown program depth noinit wire_type p) (ok p) (skip_unknown-Takes wire_type p)
            (takes λ d. le_refl (remaining d)))
          d)
        h

  try_extensions-Takes :
      (t : Tag) (p : Progress) → Takes (remaining {S = S}) (try_extensions program depth noinit t p)
  unfolding try_extensions decode_extension
  try_extensions-Takes t p = takes λ d.
      after_extensions-at_most (remaining d) d.stream.bytes_left t.wire_type p
        (decode_extension program depth noinit t.tag t.wire_type p.iter d)
        (at_most
          (decode_extensions-Takes depth d.stream.bytes_left t.tag t.wire_type
            (load_pointer d.machine.memory p.iter.p_data))
          d)

  decode_unknown-Takes :
      (t : Tag) (p : Progress) → Takes (remaining {S = S}) (decode_unknown program depth noinit t p)
  unfolding decode_unknown
  decode_unknown-Takes t p =
      let extension = find_extension_field p.iter in
      let range_start = if extension.1 then (current extension.0).tag else 2 ^ 32 - 1 in
      let p' : Progress = record p { iter = extension.0; extension_range_start = range_start } in
      Takes-if (leb p.extension_range_start t.tag)
        (Takes-if (leb range_start t.tag) (try_extensions-Takes t p')
          (skip_unknown-Takes t.wire_type p'))
        (skip_unknown-Takes t.wire_type p)

  count_fixed-Takes :
      (p : Progress) → Takes (remaining {S = S}) (count_fixed program depth noinit p)
  unfolding count_fixed
  count_fixed-Takes p =
      let it = p.iter in
      let at = program.fixed_count_at depth in
      let p' : Progress = record p {
        iter = record it { p_size = at };
        fixed_count_field = some it.pos;
      } in
      Takes-either (not ((htype (current it).type == htype_repeated) && (it.p_size == it.p_data)))
        (Takes-pure p)
        (Takes-either (is_counting p.fixed_count_field it.pos) (Takes-pure p') (
          Takes-test
            (λ d. not (
              fixed_count_complete program depth noinit it.start p.fixed_count_field
                d.machine.memory))
            (refuse Errmsg.wrong_fixed_count) (assign 4 at 0 >> pure p')
            (refuse-Takes Errmsg.wrong_fixed_count)
            (Takes-then (assign-Takes 4 at 0) (Takes-pure p'))))

  decode_known-Takes :
      (wire_type : ℕ) (p : Progress)
      → Takes (remaining {S = S}) (decode_known program depth noinit wire_type p)
  unfolding decode_known
  decode_known-Takes wire_type p = Takes-bind (count_fixed-Takes p) λ p'.
      let seen = see_required program depth noinit p' in
      Takes-bind (decode_field-Takes program depth noinit wire_type seen.iter)
        (λ it. Takes-pure (record seen { iter = it }))

  pub decode_next-Takes :
      (t : Tag) (p : Progress) → Takes (remaining {S = S}) (decode_next program depth noinit t p)
  unfolding decode_next
  decode_next-Takes t p =
      let found = pb_field_iter_find t.tag p.iter in
      let p' : Progress = record p { iter = found.0 } in
      Takes-if found.1 (decode_known-Takes t.wire_type p') (decode_unknown-Takes t p')
