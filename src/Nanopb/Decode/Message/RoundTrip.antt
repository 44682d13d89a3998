-- ===== src/Nanopb/Decode/Message/RoundTrip.antt =====
-- `pb_encode` of pb_encode.c and `pb_decode` of pb_decode.c on a message of any number of required
-- fields of unsigned types.
use social_timeline.Common.{
  ℕ, zero, suc, ◌+◌, ◌-◌, ◌%◌, ◌^◌, ◌≤◌, ◌<◌, ◌≡◌, ◌≢◌, refl, arith, ◌∙◌, ap, ◌==◌, inr,
}
use social_timeline.Common.{
  true, false, none, some, List, [], ◌∷◌, ◌++◌, All, length, drop, length-append, if◌then◌else◌,
}
use social_timeline.Nanopb.Outcome.{missing_required_field, ok}
use social_timeline.Nanopb.Varint.Bytes.{varint}
use social_timeline.Nanopb.Wire.{wt_varint}
use social_timeline.Nanopb.Wire.Encode.{key}
use social_timeline.Nanopb.Field.{Field, FieldIter, last_field, pb_field_iter_begin}
use social_timeline.Nanopb.Field.Iterate.{
  HasTag, descriptor, iter_at, get_or-HasTag, current-iter_at, pb_field_iter_next_turns,
}
use social_timeline.Nanopb.Memory.{Memory, load, store}
use social_timeline.Nanopb.Encode.Spec.{
  Bytes, both, Content, message_bytes, fields_bytes, current_bytes, field_bytes, basic_bytes,
  value_bytes, tag_bytes,
}
use social_timeline.Nanopb.Ostream.{pb_ostream_from_buffer}
use social_timeline.Nanopb.Ostream.Bounds.{holding}
use social_timeline.Nanopb.Encode.Message.{pb_encode}
use social_timeline.Nanopb.Encode.Refines.{Setting, program, content}
use social_timeline.Nanopb.Encode.Sizes.{pb_encode_into_buffer}
use social_timeline.Nanopb.Heap.{Machine}
use social_timeline.Nanopb.Decode.State.{Decoding, DecoderProgram, refuse, write_memory}
use social_timeline.Nanopb.Decode.Values.{decoding}
use social_timeline.Nanopb.Decode.Sizes.{Size-integer_size}
use social_timeline.Nanopb.Decode.Default.{pb_message_set_to_defaults}
use social_timeline.Nanopb.Decode.Release.{pb_release}
use social_timeline.Nanopb.Decode.Nested.{release_failed, decode_message}
use social_timeline.Nanopb.Decode.Message.{pb_decode}
use social_timeline.Nanopb.Decode.Message.Sequence.{field_at, entry_bytes, entries_bytes, stored}
use social_timeline.Nanopb.Decode.Message.Complete.{
  all_in, is_in-all_in, places_of, pb_decode_noinit_complete,
}
use social_timeline.Nanopb.Decode.Message.Layout.{
  IsUnsigned, address, held, is_in-places_of, held-Fits, address-above, stored-held,
}

module _ (fs behind : List Field) (all : All HasTag fs)
    (simple : (j : ℕ) → j < length fs → IsUnsigned fs behind j) (content : Content) (src : ℕ)
    (somewhere : src ≢ 0) where
  abbrev at : ℕ → FieldIter
  at = iter_at (descriptor fs behind) src

  -- What a field is encoded to.
  abbrev sent : ℕ → List ℕ
  sent k =
      varint 9 (key wt_varint (field_at fs behind k).tag)
      ++ varint 9 (load content.memory (field_at fs behind k).data_size (at k).p_data)

  current_bytes-field :
      (nested : List Field → ℕ → Bytes) (depth k : ℕ)
      → k < length fs
      → current_bytes content nested depth (at k) ≡ some (sent k)
  unfolding current_bytes field_bytes basic_bytes value_bytes tag_bytes
  current_bytes-field nested depth k h =
      let (_, typ, size, small) = simple k h in
      let here = current-iter_at fs behind src all k h in
      let above = address-above fs behind all simple src k h in
      let not_null : ((at k).p_data == 0) ≡ false = ground arith in
      let whole : (field_at fs behind k).tag % 2 ^ 61 ≡ (field_at fs behind k).tag = omega arith in
      rw (here, typ, not_null, whole, Size-integer_size (field_at fs behind k).data_size size) refl

  fields_bytes-held :
      (body : FieldIter → Bytes) (fuel count k : ℕ)
      → ((j : ℕ) → j < length fs → body (at j) ≡ some (sent j))
      → k + suc count ≡ length fs
      → length fs ≤ k + fuel
      → fields_bytes content body fuel (at k)
        ≡ some (entries_bytes fs behind (held fs behind content.memory src (suc count) k))
  unfolding fields_bytes entries_bytes entry_bytes held
  fields_bytes-held body zero count k each e enough = absurd (omega arith)
  fields_bytes-held body (suc fuel) zero k each e enough =
      let last : (suc k == length fs) ≡ true = ground arith in
      rw (each k (omega arith), pb_field_iter_next_turns fs behind src all k (omega arith), last)
        refl
  fields_bytes-held body (suc fuel) (suc count) k each e enough =
      let more : (suc k == length fs) ≡ false = ground arith in
      rw (each k (omega arith), pb_field_iter_next_turns fs behind src all k (omega arith), more)
        (ap (both (some (sent k)))
          (fields_bytes-held body fuel count (suc k) each (omega arith) (omega arith)))

  begins : 0 < length fs → (pb_field_iter_begin (descriptor fs behind) src).1 ≡ true
  unfolding pb_field_iter_begin
  begins h = let first = get_or-HasTag fs behind 0 all h in ground arith

  pub message_bytes-held :
      (depth : ℕ)
      → 0 < length fs
      → message_bytes content (suc depth) (descriptor fs behind) src
        ≡ some (entries_bytes fs behind (held fs behind content.memory src (length fs) 0))
  unfolding message_bytes iter_at
  message_bytes-held depth h =
      let body = current_bytes content (message_bytes content depth) depth in
      let long = length-append fs (last_field ∷ behind) in
      let whole : suc (length fs - 1) ≡ length fs = omega arith in
      rw (begins h) (
        fields_bytes-held body (length (descriptor fs behind)) (length fs - 1) 0
          (current_bytes-field (message_bytes content depth) depth) (omega arith)
          (omega (arith, long))
        ∙ ap (λ c. some (entries_bytes fs behind (held fs behind content.memory src c 0))) whole)

pub pb_decode-held :
    {S : Type 0} (decoder : DecoderProgram S) (depth : ℕ) (fs behind : List Field) (m : Memory)
    (src dest : ℕ) (l : List ℕ) (x : Machine)
    → All HasTag fs
    → ((j : ℕ) → j < length fs → IsUnsigned fs behind j)
    → ((a : ℕ) → m a < 256)
    → 0 < length fs
    → length fs ≤ 64
    → let bytes = entries_bytes fs behind (held fs behind m src (length fs) 0) in
      (m' : Memory) × (pb_decode decoder
          (suc depth)
          (descriptor fs behind)
          dest
          (decoding {S = S} (bytes ++ l) (length bytes) none x)
        ≡ ok tt (decoding l 0 none (record x { memory = m' })))
      × ((j : ℕ)
          → j < length fs
          → load m' (field_at fs behind j).data_size (address fs behind dest j)
            ≡ load m (field_at fs behind j).data_size (address fs behind src j))
unfolding pb_decode decode_message release_failed write_memory
pb_decode-held {S = S} decoder depth fs behind m src dest l x all simple is_memory nonempty few =
    let fields = descriptor fs behind in
    let es = held fs behind m src (length fs) 0 in
    let bytes = entries_bytes fs behind es in
    let defaults =
      pb_message_set_to_defaults decoder.descriptors (suc depth) fields dest x.memory in
    let reset = store defaults 4 (decoder.fixed_count_at depth) 0 in
    let m' = stored fs behind dest es reset in
    let d : Decoding S = decoding l 0 none (record x { memory = m' }) in
    let complete : all_in (length fs) (places_of es []) ≡ true =
      is_in-all_in (length fs) (places_of es []) (λ i h.
        is_in-places_of fs behind m src (length fs) 0 [] i (inr (omega arith, omega arith))) in
    (
      m',
      ap (release_failed (pb_release decoder.descriptors (suc depth) fields dest)) (
          pb_decode_noinit_complete decoder depth fs behind dest es l none
            (record x { memory = defaults }) all (λ j h. let (_, typ, _, _) = simple j h in typ)
            nonempty few
            (held-Fits fs behind all simple m src (length fs) 0 is_memory (omega arith))
          ∙ ap (λ b. if b then ok tt d else refuse missing_required_field d) complete),
      λ j h.
          stored-held fs behind all simple m src dest (length fs) 0 j reset is_memory (omega arith)
            (omega arith) (omega arith),
    )

-- A message of up to 64 fields, which are all required and of unsigned types, that `pb_encode` has put
-- into a buffer is read back by `pb_decode`: it succeeds at the end of what has been written, and each
-- field of the structure at `dest` then holds the number that the same field of the structure at `src`
-- holds. The fields have 1, 2, 4 or 8 bytes, no two have the same tag, which is below 2 ^ 29, `src` is not
-- 0, and the buffer has room for the message.
pub pb_decode-pb_encode :
    {S : Type 0} (setting : Setting) (decoder : DecoderProgram S) (depth depth' : ℕ)
    (fs behind : List Field) (src dest : ℕ) (buffer : List ℕ) (bufsize : ℕ) (x : Machine)
    → All HasTag fs
    → ((j : ℕ) → j < length fs → IsUnsigned fs behind j)
    → 0 < length fs
    → length fs ≤ 64
    → src ≢ 0
    → let bytes = entries_bytes fs behind (held fs behind setting.memory src (length fs) 0) in
      length bytes ≤ bufsize
      → bufsize ≤ length buffer
      → bufsize < 2 ^ 64
      → let rest = drop (length bytes) buffer in
        (pb_encode
            (program setting)
            (suc depth)
            (descriptor fs behind)
            src
            (pb_ostream_from_buffer buffer bufsize)
          ≡ ok tt (holding bytes rest bufsize (length bytes) none))
        × (m : Memory) × (pb_decode decoder
              (suc depth')
              (descriptor fs behind)
              dest
              (decoding {S = S} (bytes ++ rest) (length bytes) none x)
            ≡ ok tt (decoding rest 0 none (record x { memory = m })))
        × ((j : ℕ)
            → j < length fs
            → load m (field_at fs behind j).data_size (address fs behind dest j)
              ≡ load setting.memory (field_at fs behind j).data_size (address fs behind src j))
pb_decode-pb_encode setting decoder depth depth' fs behind src dest buffer bufsize x all simple
      nonempty few somewhere fits inside short =
    let bytes = entries_bytes fs behind (held fs behind setting.memory src (length fs) 0) in
    let meant =
      message_bytes-held fs behind all simple (content setting) src somewhere depth nonempty in
    let (m, decoded, holds) =
      pb_decode-held decoder depth' fs behind setting.memory src dest (drop (length bytes) buffer) x
        all simple setting.is_memory nonempty few in
    (
      pb_encode_into_buffer setting (suc depth) (descriptor fs behind) src bytes meant buffer
          bufsize fits inside short,
      m,
      decoded,
      holds,
    )
