-- ===== src/Nanopb/Runs.antt =====
-- The theorems on nanopb's streams, numbers, tags and fields, at concrete inputs.
use social_timeline.Common.{
  ℕ, ◌+◌, ◌-◌, ◌*◌, ◌^◌, ◌≡◌, refl, arith, none, List, [], ◌∷◌, ◌++◌, All, length, bit_or, ltb,
  if◌then◌else◌, suc, ◌==◌, false, true,
}
use social_timeline.Nanopb.Outcome.{ok, left}
use social_timeline.Nanopb.Ostream.{buf_write, pb_write}
use social_timeline.Nanopb.Ostream.Bounds.{holding, IsBounded, pb_write-IsBounded}
use social_timeline.Nanopb.Istream.Reads.{reading}
use social_timeline.Nanopb.Varint.{
  zigzag, pb_decode_varint, pb_decode_varint32, pb_decode_svarint, pb_encode_varint,
}
use social_timeline.Nanopb.Varint.Bytes.{varint, length-varint}
use social_timeline.Nanopb.Varint.Decode64.{pb_decode_varint-varint}
use social_timeline.Nanopb.Varint.Decode32.{pb_decode_varint32-varint}
use social_timeline.Nanopb.Varint.Overlong.{pads, pb_decode_varint32_wraps}
use social_timeline.Nanopb.Varint.Zigzag.{zigzag_value, pb_decode_svarint-varint}
use social_timeline.Nanopb.Varint.Limits.{Within, pb_decode_varint-Within}
use social_timeline.Nanopb.Wire.{
  wt_string, fixed64_bytes, pb_decode_tag, pb_decode_fixed64, pb_skip_field,
}
use social_timeline.Nanopb.Wire.Encode.{Encodes, key, pb_encode_varint-Encodes}
use social_timeline.Nanopb.Wire.Decode.{pb_decode_tag-key}
use social_timeline.Nanopb.Wire.Fixed.{pb_decode_fixed64-bytes}
use social_timeline.Nanopb.Wire.Skip.{a_string, pb_skip_field_value}
use social_timeline.Common.{◌<◌}
use social_timeline.Nanopb.Field.{
  Field, add_offset, pb_field_iter_begin, pb_field_iter_find, pb_field_iter_next,
}
use social_timeline.Nanopb.Field.Iterate.{HasTag, descriptor, iter_at}
use social_timeline.Nanopb.Field.Places.{
  HasSizes, room, joins, required_before, first_member, offset, place, pb_field_iter_next_place,
}
use social_timeline.Nanopb.Field.Find.{FindsAll, pb_field_iter_find_complete}

-- The state of a stream that has no callback of its own.
abbrev S : Type 0
S = Unit {0}

pb_decode_varint-varint_example :
    pb_decode_varint {S = S} (reading (varint 9 300 ++ (7 ∷ [])) 10 none)
    ≡ ok 300 (reading (7 ∷ []) (10 - length (varint 9 300)) none)
pb_decode_varint-varint_example =
    pb_decode_varint-varint 300 10 (7 ∷ []) none (omega arith) ((length-varint 9 300).1)

pb_decode_varint32-varint_example :
    pb_decode_varint32 {S = S} (reading (varint 9 300 ++ (7 ∷ [])) 10 none)
    ≡ ok 300 (reading (7 ∷ []) (10 - length (varint 9 300)) none)
pb_decode_varint32-varint_example =
    pb_decode_varint32-varint 300 10 (7 ∷ []) none (omega arith) ((length-varint 9 300).1)

-- The pattern of -2.
pb_decode_svarint-varint_example :
    pb_decode_svarint {S = S} (reading (varint 9 (zigzag (2 ^ 64 - 2)) ++ (7 ∷ [])) 10 none)
    ≡ ok (2 ^ 64 - 2) (reading (7 ∷ []) (10 - length (varint 9 (zigzag (2 ^ 64 - 2)))) none)
pb_decode_svarint-varint_example =
    pb_decode_svarint-varint (2 ^ 64 - 2) 10 (7 ∷ []) none (omega arith)
      ((length-varint 9 (zigzag (2 ^ 64 - 2))).1)

zigzag_value_example :
    zigzag (2 ^ 64 - 2)
    ≡ (if ltb (2 ^ 64 - 2) (2 ^ 63) then 2 * (2 ^ 64 - 2) else 2 * (2 ^ 64 - (2 ^ 64 - 2)) - 1)
zigzag_value_example = zigzag_value (2 ^ 64 - 2) (omega arith)

-- Eleven bytes with their top bit set.
pb_decode_varint-Within_example :
    Within {S = S} 10 11 (pb_decode_varint (reading (pads 11 []) 11 none))
pb_decode_varint-Within_example = pb_decode_varint-Within (reading (pads 11 []) 11 none)

pb_decode_varint32_wraps_example :
    pb_decode_varint32 {S = S} (reading ((1 + 128) ∷ pads 36 (2 ∷ [])) 38 none)
    ≡ ok (bit_or 1 (2 * 8)) (reading [] (38 - 38) none)
pb_decode_varint32_wraps_example =
    pb_decode_varint32_wraps 1 2 38 [] none (omega arith) (omega arith) (omega arith)

pb_encode_varint-Encodes_example : Encodes (pb_encode_varint 300) (varint 9 300)
pb_encode_varint-Encodes_example = pb_encode_varint-Encodes 300 (omega arith)

pb_decode_tag-key_example :
    pb_decode_tag {S = S} (reading (varint 9 (key 2 100) ++ (7 ∷ [])) 10 none) ≡ (
      ok
          (record { wire_type = 2; tag = 100 })
          (reading (7 ∷ []) (10 - length (varint 9 (key 2 100))) none),
      false,
    )
pb_decode_tag-key_example =
    pb_decode_tag-key 2 100 10 (7 ∷ []) none (omega arith) (omega arith) (omega arith)
      ((length-varint 9 (key 2 100)).1)

pb_decode_fixed64-bytes_example :
    pb_decode_fixed64 {S = S} (reading (fixed64_bytes 70000 ++ (7 ∷ [])) 9 none)
    ≡ ok 70000 (reading (7 ∷ []) (9 - 8) none)
pb_decode_fixed64-bytes_example =
    pb_decode_fixed64-bytes 70000 9 (7 ∷ []) none (omega arith) (omega arith)

abbrev two_byte_string : List ℕ
two_byte_string = varint 9 2 ++ (5 ∷ 6 ∷ [])

pb_skip_field_value_example :
    pb_skip_field {S = S} wt_string
      (reading (two_byte_string ++ (7 ∷ [])) (length two_byte_string) none)
    ≡ ok tt (reading (7 ∷ []) (length two_byte_string - length two_byte_string) none)
pb_skip_field_value_example =
    pb_skip_field_value wt_string two_byte_string (7 ∷ []) (length two_byte_string) none
      (a_string (5 ∷ 6 ∷ []) (omega arith)) (omega arith)

pb_write-IsBounded_example :
    IsBounded (left (pb_write (5 ∷ 6 ∷ []) 2 (holding (1 ∷ []) (9 ∷ []) 2 1 none)))
pb_write-IsBounded_example =
    pb_write-IsBounded (5 ∷ 6 ∷ []) 2 (holding (1 ∷ []) (9 ∷ []) 2 1 none) buf_write refl
      (omega arith) (omega arith)

abbrev field_of : ℕ → Field
field_of tag = record {
  tag = tag;
  type = 1;
  data_offset = 0;
  size_offset = 0;
  data_size = 4;
  array_size = 0;
  ptr = 0;
}

abbrev two_fields : List Field
two_fields = field_of 3 ∷ field_of 8 ∷ []

two_fields-HasTag : All HasTag two_fields
two_fields-HasTag = (λ e. omega (arith, e), (λ e. omega (arith, e), tt))

pb_field_iter_find_complete_example :
    FindsAll two_fields [] 64 3 1 (pb_field_iter_find 3 (iter_at (descriptor two_fields []) 64 1))
pb_field_iter_find_complete_example =
    pb_field_iter_find_complete two_fields [] 64 two_fields-HasTag 3 1 (omega arith)

-- A required number, an array of three numbers, and a union of two members.
abbrev union_fields : List Field
union_fields =
    field_of 1
    ∷ record (field_of 2) { type = 0x21; data_offset = 4; size_offset = 2 ^ 32 - 4; array_size = 3 }
    ∷ record (field_of 3) { type = 0x31; data_offset = 4; size_offset = 2 ^ 32 - 4 }
    ∷ record (field_of 4) { type = 0x31; data_offset = 2 ^ 32 - 1; size_offset = 2 ^ 32 - 4 }
    ∷ []

union_fields-HasTag : All HasTag union_fields
union_fields-HasTag = (ground arith, (ground arith, (ground arith, (ground arith, tt))))

union_fields-HasSizes : All HasSizes union_fields
union_fields-HasSizes =
    let value : (4 < 2 ^ 32) × (0 < 2 ^ 32) = (omega arith, omega arith) in
    (value, ((omega arith, omega arith), (value, (value, tt))))

pb_field_iter_next_place_example :
    let at = place (descriptor union_fields []) 64 in
    (pb_field_iter_begin (descriptor union_fields []) 64 ≡ (at 0, true))
    × (pb_field_iter_next (at 2)
        ≡ (if suc 2 == length union_fields then (at 0, false) else (at (suc 2), true)))
pb_field_iter_next_place_example =
    pb_field_iter_next_place union_fields [] 64 union_fields-HasTag union_fields-HasSizes 2
      (omega arith)

-- The array lies behind the number and its count, and both members of the union lie behind it and
-- `which_`, whose address they share.
places_of_union :
    ((place (descriptor union_fields []) 64 3).p_data ≡ 88)
    × ((place (descriptor union_fields []) 64 3).p_size ≡ 84)
    × ((place (descriptor union_fields []) 64 3).required_field_index ≡ 1)
unfolding place offset joins room required_before first_member add_offset
places_of_union = (refl, refl, refl)
