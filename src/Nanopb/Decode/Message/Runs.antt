-- ===== src/Nanopb/Decode/Message/Runs.antt =====
-- The theorems on the message decoder, at concrete inputs.
use social_timeline.Common.{
  ℕ, zero, suc, ◌+◌, ◌-◌, ◌*◌, ◌≤◌, ◌<◌, ◌≡◌, ◌^◌, ◌↔◌, refl, arith, true, false, none, List, [],
  ◌∷◌, ◌++◌, All, length, drop, ◌==◌, if◌then◌else◌, if-cases,
}
use social_timeline.Nanopb.Outcome.{missing_required_field, ok, fail}
use social_timeline.Nanopb.Ostream.{pb_ostream_from_buffer}
use social_timeline.Nanopb.Ostream.Bounds.{holding}
use social_timeline.Nanopb.Varint.Bytes.{varint, length-varint}
use social_timeline.Nanopb.Wire.{wt_varint}
use social_timeline.Nanopb.Wire.Encode.{key}
use social_timeline.Nanopb.Wire.Skip.{a_varint}
use social_timeline.Nanopb.Field.{
  Field, last_field, ltype_uvarint, is_wanted, pb_field_iter_next, pb_field_iter_begin,
}
use social_timeline.Nanopb.Field.Iterate.{HasTag, descriptor, iter_at}
use social_timeline.Nanopb.Field.Find.{has_wanted}
use social_timeline.Nanopb.Memory.{Memory, load, store}
use social_timeline.Nanopb.Encode.Message.{pb_encode, pb_encode_delimited}
use social_timeline.Nanopb.Encode.Spec.{string}
use social_timeline.Nanopb.Encode.Values.{refused}
use social_timeline.Nanopb.Encode.Refines.{Setting, program}
use social_timeline.Nanopb.Heap.{Machine}
use social_timeline.Nanopb.Decode.State.{Decoding, DecoderProgram, refuse}
use social_timeline.Nanopb.Decode.Values.{decoding}
use social_timeline.Nanopb.Decode.Sizes.{one_byte}
use social_timeline.Nanopb.Decode.Required.{none_seen, all_seen}
use social_timeline.Nanopb.Decode.Required.Seen.{is_in, seen_fields, all_seen_iff}
use social_timeline.Nanopb.Decode.Fields.{find_extension_field, find_extension_loop}
use social_timeline.Nanopb.Decode.Message.{
  Progress, decode_loop, pb_decode_noinit, pb_decode, pb_decode_delimited,
}
use social_timeline.Nanopb.Decode.Message.Sequence.{
  Entry, field_at, Fits, entry_bytes, entries_bytes, stored,
}
use social_timeline.Nanopb.Decode.Message.Count.{AllUnsigned}
use social_timeline.Nanopb.Decode.Message.Complete.{all_in, places_of, pb_decode_noinit_complete}
use social_timeline.Nanopb.Decode.Message.Layout.{IsUnsigned, address, held}
use social_timeline.Nanopb.Decode.Message.RoundTrip.{pb_decode-pb_encode}
use social_timeline.Nanopb.Decode.Message.Unknown.{SameFields, decode_loop_unknown}
use social_timeline.Nanopb.Decode.Message.Delimited.{pb_decode_delimited-pb_encode_delimited}

abbrev S : Type 0
S = Unit {0}

abbrev empty : Machine
empty = record { memory = λ a. 0; blocks = []; misused = false }

-- A required field of an unsigned type.
abbrev unsigned : ℕ → ℕ → ℕ → Field
unsigned tag offset size = record {
  tag = tag;
  type = ltype_uvarint;
  data_offset = offset;
  size_offset = 0;
  data_size = size;
  array_size = 0;
  ptr = 0;
}

abbrev single : ℕ → ℕ → ℕ → List Field
single tag offset size = unsigned tag offset size ∷ last_field ∷ []

abbrev number : List Field
number = single 1 0 1

abbrev decoder : DecoderProgram S
decoder = record {
  descriptors = λ _. number;
  callback_decode = λ _ _ _. fail;
  extension_decode = λ _ _ _ _. fail;
  place = λ _ _ _. none;
  fixed_count_at = λ depth. 4096 + 4 * depth;
}

-- The numbers 200 and 201 at the addresses 16 and 18.
abbrev cells : Memory
cells a = if a == 16 then 200 else if a == 18 then 201 else 0

cells-IsMemory : (a : ℕ) → cells a < 256
cells-IsMemory a =
    if-cases (λ v. v < 256) (a == 16) 200 (if a == 18 then 201 else 0) (omega arith)
      (if-cases (λ v. v < 256) (a == 18) 201 0 (omega arith) (omega arith))

abbrev setting : Setting
setting = record {
  memory = cells;
  is_memory = λ a. cells-IsMemory a;
  descriptors = λ _. number;
  callback_encode = λ _ _ _. fail;
  extension_encode = λ _ _. fail;
  callback_bytes = λ _ _ _. none;
  extension_bytes = λ _ _. none;
  callbacks = λ _ _ _. refused;
  extends = λ _ _. refused;
}

abbrev twelve : List ℕ
twelve = 9 ∷ 9 ∷ 9 ∷ 9 ∷ 9 ∷ 9 ∷ 9 ∷ 9 ∷ 9 ∷ 9 ∷ 9 ∷ 9 ∷ []

-- Two numbers, with a byte between them.
abbrev pair : List Field
pair = unsigned 1 0 1 ∷ unsigned 2 1 1 ∷ []

pair-HasTag : All HasTag pair
pair-HasTag = (ground arith, (ground arith, tt))

pair_only : (j i : ℕ) → j < 2 → i < 2 → is_wanted (suc j) (field_at pair [] i) ≡ true → i ≡ j
unfolding is_wanted
pair_only zero zero h h' e = refl
pair_only zero (suc zero) h h' e = absurd (ground arith)
pair_only (suc zero) zero h h' e = absurd (ground arith)
pair_only (suc zero) (suc zero) h h' e = refl
pair_only (suc (suc j)) i h h' e = absurd (omega arith)
pair_only j (suc (suc i)) h h' e = absurd (omega arith)

pair-IsUnsigned : (j : ℕ) → j < 2 → IsUnsigned pair [] j
unfolding is_wanted
pair-IsUnsigned zero h = ((refl, λ i h'. pair_only 0 i h h'), refl, one_byte, omega arith)
pair-IsUnsigned (suc zero) h = ((refl, λ i h'. pair_only 1 i h h'), refl, one_byte, omega arith)
pair-IsUnsigned (suc (suc j)) h = absurd (omega arith)

abbrev message : List ℕ
message = entries_bytes pair [] (held pair [] cells 16 2 0)

message-fits : length message ≤ 12
unfolding entries_bytes entry_bytes held load varint iter_at pb_field_iter_next pb_field_iter_begin
message-fits = omega arith

pb_decode-pb_encode_example :
    (pb_encode (program setting) 1 (descriptor pair []) 16 (pb_ostream_from_buffer twelve 12)
      ≡ ok tt (holding message (drop (length message) twelve) 12 (length message) none))
    × (m : Memory) × (pb_decode decoder 1
          (descriptor pair [])
          64
          (decoding (message ++ drop (length message) twelve) (length message) none empty)
        ≡ ok tt (decoding (drop (length message) twelve) 0 none (record empty { memory = m })))
    × ((j : ℕ)
        → j < 2
        → load m (field_at pair [] j).data_size (address pair [] 64 j)
          ≡ load cells (field_at pair [] j).data_size (address pair [] 16 j))
pb_decode-pb_encode_example =
    pb_decode-pb_encode setting decoder 0 0 pair [] 16 64 twelve 12 empty pair-HasTag
      pair-IsUnsigned (omega arith) (omega arith) (ground arith) message-fits (omega arith)
      (omega arith)

-- The second field, the first one, and the second one again.
abbrev three : List Entry
three =
    record { place = 1; number = 5 }
    ∷ record { place = 0; number = 7 }
    ∷ record { place = 1; number = 9 }
    ∷ []

three-Fits : All (Fits pair []) three
three-Fits =
    let (only, typ, size, small) = pair-IsUnsigned 1 (omega arith) in
    let (only', typ', size', small') = pair-IsUnsigned 0 (omega arith) in
    (
      (omega arith, only, typ, size, omega arith, small),
      (
        (omega arith, only', typ', size', omega arith, small'),
        ((omega arith, only, typ, size, omega arith, small), tt),
      ),
    )

pair_unsigned : AllUnsigned pair []
pair_unsigned j h = let (_, typ, _, _) = pair-IsUnsigned j h in typ

pb_decode_noinit_complete_example :
    let m = store empty.memory 4 4096 0 in
    let d : Decoding S =
      decoding (8 ∷ []) 0 none (record empty { memory = stored pair [] 64 three m }) in
    pb_decode_noinit decoder 1 (descriptor pair []) 64 (
      decoding
        (entries_bytes pair [] three ++ (8 ∷ []))
        (length (entries_bytes pair [] three))
        none
        empty)
    ≡ (if all_in 2 (places_of three []) then ok tt d else refuse missing_required_field d)
pb_decode_noinit_complete_example =
    pb_decode_noinit_complete decoder 0 pair [] 64 three (8 ∷ []) none empty pair-HasTag
      pair_unsigned (omega arith) (omega arith) three-Fits

two_seen : (i : ℕ) → 2 ≤ i → is_in i (1 ∷ 0 ∷ []) ≡ false
unfolding is_in
two_seen i h = ground arith

all_seen_iff_example :
    (all_seen 2 (seen_fields (1 ∷ 0 ∷ [])) ≡ true) ↔ ((i : ℕ) → i < 2 → is_in i (1 ∷ 0 ∷ []) ≡ true)
all_seen_iff_example = all_seen_iff 2 (1 ∷ 0 ∷ []) two_seen

abbrev start : Progress
start = record {
  iter = iter_at number 64 0;
  fields_seen = none_seen;
  extension_range_start = 0;
  fixed_count_field = none;
}

number-HasTag : All HasTag (unsigned 1 0 1 ∷ [])
number-HasTag = (ground arith, tt)

absent : has_wanted 5 (unsigned 1 0 1 ∷ []) ≡ false
unfolding is_wanted
absent = refl

no_extension : (find_extension_field start.iter).1 ≡ false
unfolding find_extension_field find_extension_loop iter_at pb_field_iter_begin pb_field_iter_next
no_extension = refl

decode_loop_unknown_example :
    let bytes = varint 9 (key wt_varint 5) ++ (varint 9 300 ++ (8 ∷ 200 ∷ 1 ∷ [])) in
    (q : Progress) × SameFields start q
    × (decode_loop decoder 1
          (pb_decode_noinit decoder 1)
          (suc 40)
          start
          (decoding bytes 30 none empty)
        ≡ decode_loop decoder 1 (pb_decode_noinit decoder 1) 40 q (
            decoding
              (8 ∷ 200 ∷ 1 ∷ [])
              (30 - length (varint 9 (key wt_varint 5)) - length (varint 9 300))
              none
              empty))
decode_loop_unknown_example =
    decode_loop_unknown decoder 1 (pb_decode_noinit decoder 1) (unsigned 1 0 1 ∷ []) [] 64
      number-HasTag 0 40 wt_varint 5 30 (varint 9 300) (8 ∷ 200 ∷ 1 ∷ []) none empty start
      (omega arith) refl absent no_extension (a_varint 300 (omega arith)) (omega arith)
      (omega arith) (omega arith)
      (omega (arith, (length-varint 9 (key wt_varint 5)).1, (length-varint 9 300).1))

abbrev delimited : List ℕ
delimited = string message

delimited-fits : (length message < 2 ^ 32) × (length delimited ≤ 12)
unfolding entries_bytes entry_bytes held load varint iter_at pb_field_iter_next pb_field_iter_begin
delimited-fits = (omega arith, omega arith)

pb_decode_delimited-pb_encode_delimited_example :
    let rest = drop (length delimited) twelve in
    (pb_encode_delimited
        (program setting)
        1
        (descriptor pair [])
        16
        (pb_ostream_from_buffer twelve 12)
      ≡ ok tt (holding delimited rest 12 (length delimited) none))
    × (m : Memory) × (pb_decode_delimited decoder 1
          (descriptor pair [])
          64
          (decoding (delimited ++ rest) 12 none empty)
        ≡ ok tt (decoding rest (12 - length delimited) none (record empty { memory = m })))
    × ((j : ℕ)
        → j < 2
        → load m (field_at pair [] j).data_size (address pair [] 64 j)
          ≡ load cells (field_at pair [] j).data_size (address pair [] 16 j))
pb_decode_delimited-pb_encode_delimited_example =
    let (small, fits) = delimited-fits in
    pb_decode_delimited-pb_encode_delimited setting decoder 0 0 pair [] 16 64 twelve 12 12 empty
      pair-HasTag pair-IsUnsigned (omega arith) (omega arith) (ground arith) small fits
      (omega arith) (omega arith) fits
