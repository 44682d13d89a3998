-- ===== src/Nanopb/Decode/FieldRuns.antt =====
-- The theorems on the decoding and the release of fields, at concrete inputs.
use social_timeline.Common.{
  ℕ, suc, ◌+◌, ◌-◌, ◌*◌, ◌^◌, ◌≤◌, ◌<◌, ◌≡◌, ◌⊎◌, refl, arith, false, inr, none, List, [], ◌∷◌,
  ◌++◌, length, ◌==◌, ltb, if◌then◌else◌,
}
use social_timeline.Nanopb.Outcome.{
  ok, fail, first_error, string_overflow, size_too_large, array_overflow,
}
use social_timeline.Nanopb.Istream.Reads.{reading}
use social_timeline.Nanopb.Varint.Bytes.{varint, length-varint}
use social_timeline.Nanopb.Field.{Field, FieldIter, last_field}
use social_timeline.Nanopb.Memory.{Memory, load_pointer, load_size, load, store}
use social_timeline.Nanopb.Heap.{Machine, Placement, pb_realloc}
use social_timeline.Nanopb.Decode.State.{Decoding, DecoderProgram, refuse}
use social_timeline.Nanopb.Decode.Values.{decoding}
use social_timeline.Nanopb.Decode.Scalars.{pb_dec_uvarint}
use social_timeline.Nanopb.Decode.Release.{pb_release_single_field}
use social_timeline.Nanopb.Decode.Release.Again.{
  Released, SameBlocks, pb_release_single_field_again, pb_release_single_field_clears,
}
use social_timeline.Nanopb.Decode.Allocate.{keep_block, allocate_field}
use social_timeline.Nanopb.Decode.Allocate.Bounds.{allocate_field_exact}
use social_timeline.Nanopb.Decode.Strings.{pb_dec_string}
use social_timeline.Nanopb.Decode.Strings.Bytes.{
  HoldsString, with_string, pb_dec_string-string, pb_dec_string_too_long,
}
use social_timeline.Nanopb.Decode.Static.{decode_entry}
use social_timeline.Nanopb.Decode.Static.Full.{decode_entry_full}
use social_timeline.Nanopb.Decode.Pointer.{decode_item}
use social_timeline.Nanopb.Decode.Pointer.NoMemory.{CountsOneMore, decode_item-NoMemory}

abbrev S : Type 0
S = Unit {0}

-- The number 3 at the address 128, in 32 bits, and the address 512 at 136; a block of 24 bytes at 512.
abbrev cells : Memory
cells a = if a == 128 then 3 else if a == 137 then 2 else 0

abbrev machine : Machine
machine = record {
  memory = cells;
  blocks = record { address = 512; block_size = 24 } ∷ [];
  misused = false;
}

abbrev nowhere : Placement
nowhere _ _ _ = none

abbrev program : DecoderProgram S
program = record {
  descriptors = λ _. [];
  callback_decode = λ _ _ _. fail;
  extension_decode = λ _ _ _ _. fail;
  place = nowhere;
  fixed_count_at = λ depth. 4096;
}

abbrev field_of : ℕ → ℕ → ℕ → Field
field_of type data_size array_size = record {
  tag = 1;
  type = type;
  data_offset = 8;
  size_offset = 2 ^ 32 - 8;
  data_size = data_size;
  array_size = array_size;
  ptr = 0;
}

-- A repeated field that is a pointer, and one of three entries in the structure.
abbrev strings : Field
strings = field_of 0xA6 8 0

abbrev three_numbers : Field
three_numbers = field_of 0x21 1 3

abbrev iter_of : Field → FieldIter
iter_of field = record {
  start = field ∷ last_field ∷ [];
  pos = 0;
  required_field_index = 0;
  dest_struct = 128;
  p_data = 136;
  p_size = 128;
}

abbrev here : Decoding S
here = record { stream = reading (5 ∷ []) 1 none; machine = machine }

three : load_size cells 128 ≡ 3
unfolding load
three = refl

pb_release_single_field_again_example :
    SameBlocks
      (pb_release_single_field
        (λ _. [])
        3
        (iter_of strings)
        (pb_release_single_field (λ _. []) 2 (iter_of strings) machine))
      (pb_release_single_field (λ _. []) 2 (iter_of strings) machine)
pb_release_single_field_again_example =
    pb_release_single_field_again (λ _. []) 1 2 (iter_of strings) machine refl
      (λ e. omega (arith, e)) (inr (omega arith))

pb_release_single_field_clears_example :
    Released (iter_of strings) (pb_release_single_field (λ _. []) 2 (iter_of strings) machine)
pb_release_single_field_clears_example =
    pb_release_single_field_clears (λ _. []) 1 (iter_of strings) machine refl
      (λ e. absurd (omega (arith, e))) (inr (omega arith))

allocate_field_exact_example : allocate_field nowhere 136 (2 ^ 40) (2 ^ 30) here ≡ (
    if ltb (2 ^ 30 * 2 ^ 40) (2 ^ 64)
    then keep_block 136 here (pb_realloc nowhere (load_pointer cells 136) (2 ^ 30 * 2 ^ 40) machine)
    else refuse size_too_large here)
allocate_field_exact_example =
    allocate_field_exact nowhere 136 (2 ^ 40) (2 ^ 30) here (omega arith) (omega arith)

abbrev text : Field
text = field_of 0x06 4 0

abbrev letters : List ℕ
letters = 104 ∷ 105 ∷ []

pb_dec_string-string_example :
    (pb_dec_string {S = S} nowhere text 64
        (decoding (varint 9 (length letters) ++ (letters ++ (7 ∷ []))) 13 none machine)
      ≡ ok tt (
          decoding
            (7 ∷ [])
            (13 - length (varint 9 (length letters)) - length letters)
            none
            (with_string machine 64 letters)))
    × HoldsString machine (with_string machine 64 letters) 64 4 letters
pb_dec_string-string_example =
    pb_dec_string-string nowhere text 64 13 letters (7 ∷ []) none machine (λ e. omega (arith, e))
      (omega arith) (omega arith) (omega (arith, (length-varint 9 (length letters)).1))

pb_dec_string_too_long_example :
    pb_dec_string {S = S} nowhere text 64 (decoding (varint 9 4 ++ (7 ∷ [])) 13 none machine)
    ≡ fail (decoding (7 ∷ []) (13 - length (varint 9 4)) (first_error none string_overflow) machine)
pb_dec_string_too_long_example =
    pb_dec_string_too_long nowhere text 64 13 4 (7 ∷ []) none machine (λ e. omega (arith, e))
      (omega arith) (omega arith) (omega (arith, (length-varint 9 4).1))

decode_item-NoMemory_example :
    CountsOneMore
      (iter_of strings)
      here
      (decode_item program 1 pb_dec_uvarint (iter_of strings) here)
decode_item-NoMemory_example =
    decode_item-NoMemory program 1 pb_dec_uvarint (iter_of strings) here (λ blocks p size. refl)
      (inr (omega arith)) (omega (arith, three))

decode_entry_full_example :
    let size = load_size cells 128 in
    let m = store cells 4 128 (suc size) in
    (decode_entry pb_dec_uvarint (iter_of three_numbers) here
      ≡ fail (record here {
        stream = record here.stream { errmsg = first_error none array_overflow };
        machine = record machine { memory = m };
      }))
    × (load_size m 128 ≡ suc size)
    × ((a : ℕ) → (a < 128) ⊎ (128 + 4 ≤ a) → m a ≡ cells a)
decode_entry_full_example =
    decode_entry_full pb_dec_uvarint (iter_of three_numbers) here (omega (arith, three))
      (omega (arith, three))
