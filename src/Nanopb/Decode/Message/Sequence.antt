-- ===== src/Nanopb/Decode/Message/Sequence.antt =====
-- `pb_decode_noinit` of pb_decode.c on any sequence of values of required fields of unsigned types: in
-- any order, and some fields more than once.
use social_timeline.Common.{ℕ, suc, ◌+◌, ◌-◌, ◌^◌, ◌≤◌, ◌<◌, ◌≡◌, ◌≢◌, refl, arith, ◌∙◌, ap}
use social_timeline.Common.{
  none, Option, List, [], ◌∷◌, ◌++◌, All, length, get_or, length-append, append_assoc,
}
use social_timeline.Nanopb.Outcome.{Errmsg, Run, bind}
use social_timeline.Nanopb.Varint.Bytes.{varint, length-varint}
use social_timeline.Nanopb.Wire.{wt_varint}
use social_timeline.Nanopb.Wire.Encode.{key}
use social_timeline.Nanopb.Field.{Field, FieldIter, last_field, ltype_uvarint}
use social_timeline.Nanopb.Field.Iterate.{HasTag, descriptor, iter_at, get_or-HasTag}
use social_timeline.Nanopb.Memory.{Memory, store}
use social_timeline.Nanopb.Heap.{Machine}
use social_timeline.Nanopb.Decode.State.{Decoding, DecoderProgram, assign, write_memory}
use social_timeline.Nanopb.Decode.Values.{decoding}
use social_timeline.Nanopb.Decode.Sizes.{Size}
use social_timeline.Nanopb.Decode.Required.{none_seen}
use social_timeline.Nanopb.Decode.Message.{
  Progress, see_required, decode_loop, check_complete, decode_fields, pb_decode_noinit,
}
use social_timeline.Nanopb.Decode.Message.Step.{decode_loop-end}
use social_timeline.Nanopb.Decode.Message.Known.{IsOnly, see_required-iter, decode_loop_known}

-- A number for the field at a position.
pub record Entry : Type 0 where
  pub place : ℕ
  pub number : ℕ

module _ (fs behind : List Field) where
  abbrev pub field_at : ℕ → Field
  field_at j = get_or (descriptor fs behind) j last_field

  -- The entry is one of a required field of an unsigned type, whose tag no other field has, and fits it.
  abbrev pub Fits : Entry → Type 0
  Fits e =
      let field = field_at e.place in
      (e.place < length fs)
      × IsOnly field.tag fs behind e.place
      × (field.type ≡ ltype_uvarint)
      × Size field.data_size
      × (e.number < 256 ^ field.data_size)
      × (field.tag < 2 ^ 29)

  -- What is sent for the entries.
  unfoldable pub entry_bytes : Entry → List ℕ
  entry_bytes e = varint 9 (key wt_varint (field_at e.place).tag) ++ varint 9 e.number

  unfoldable pub entries_bytes : List Entry → List ℕ
  unfolding entry_bytes
  entries_bytes [] = []
  entries_bytes (e ∷ es) = entry_bytes e ++ entries_bytes es

  module _ (dest : ℕ) where
    abbrev pub iter_of : Entry → FieldIter
    iter_of e = iter_at (descriptor fs behind) dest e.place

    -- The entries in the memory, the later ones over the earlier ones.
    unfoldable pub stored : List Entry → Memory → Memory
    stored [] m = m
    stored (e ∷ es) m = stored es (store m (field_at e.place).data_size (iter_of e).p_data e.number)

    module _ {S : Type 0} (program : DecoderProgram S) (depth : ℕ)
        (noinit : List Field → ℕ → Run (Decoding S) (Unit {0})) where
      -- The locals behind the entries: the iterator at the last one, and all of them seen.
      unfoldable pub past : List Entry → Progress → Progress
      past [] p = p
      past (e ∷ es) p = past es (see_required program depth noinit (record p { iter = iter_of e }))

-- The locals before the first value.
abbrev pub start : List Field → List Field → ℕ → Progress
start fs behind dest = record {
  iter = iter_at (descriptor fs behind) dest 0;
  fields_seen = none_seen;
  extension_range_start = 0;
  fixed_count_field = none;
}

length-entries_bytes :
    (fs behind : List Field) (es : List Entry) → length es ≤ length (entries_bytes fs behind es)
unfolding entries_bytes entry_bytes
length-entries_bytes fs behind [] = omega arith
length-entries_bytes fs behind (e ∷ es) =
    let first = varint 9 (key wt_varint (field_at fs behind e.place).tag) in
    omega (
      arith,
      length-append (first ++ varint 9 e.number) (entries_bytes fs behind es),
      length-append first (varint 9 e.number),
      (length-varint 9 e.number).0,
      length-entries_bytes fs behind es,
    )

append_three : (a b c l : List ℕ) → ((a ++ b) ++ c) ++ l ≡ a ++ (b ++ (c ++ l))
append_three a b c l = append_assoc (a ++ b) c l ∙ append_assoc a b (c ++ l)

module _ {S : Type 0} (program : DecoderProgram S) (depth : ℕ)
    (noinit : List Field → ℕ → Run (Decoding S) (Unit {0})) (fs behind : List Field) (dest : ℕ)
    (all : All HasTag fs) where
  decode_loop_entries :
      (es : List Entry) (pos rounds k : ℕ) (l : List ℕ) (err : Option Errmsg) (x : Machine)
      (p : Progress)
      → All (Fits fs behind) es
      → pos < length fs
      → p.iter ≡ iter_at (descriptor fs behind) dest pos
      → decode_loop program depth noinit (length es + rounds) p (
          decoding
            (entries_bytes fs behind es ++ l)
            (length (entries_bytes fs behind es) + k)
            err
            x)
        ≡ decode_loop program depth noinit rounds
            (past fs behind dest program depth noinit es p)
            (decoding l k err (record x { memory = stored fs behind dest es x.memory }))
  unfolding entries_bytes entry_bytes stored past
  decode_loop_entries [] pos rounds k l err x p fit hpos at =
      let same_rounds : 0 + rounds ≡ rounds = omega arith in
      let same_left : 0 + k ≡ k = omega arith in rw (same_rounds, same_left) refl
  decode_loop_entries (e ∷ es) pos rounds k l err x p ((inside, only, typ, size, below, small), fit)
        hpos at =
      let field = field_at fs behind e.place in
      let first = varint 9 (key wt_varint field.tag) in
      let value = varint 9 e.number in
      let rest = entries_bytes fs behind es in
      let n = length ((first ++ value) ++ rest) + k in
      let p' = see_required program depth noinit (record p { iter = iter_of fs behind dest e }) in
      let x' : Machine = record x {
        memory = store x.memory field.data_size (iter_of fs behind dest e).p_data e.number;
      } in
      let whole : n ≡ length first + length value + (length rest + k) =
        omega (arith, length-append (first ++ value) rest, length-append first value) in
      let some_tag : field.tag ≢ 0 = get_or-HasTag fs behind e.place all inside in
      let left : n - length first - length value ≡ length rest + k = omega arith in
      let same_rounds : suc (length es) + rounds ≡ suc (length es + rounds) = omega arith in
      ap
        (λ r.
          decode_loop program depth noinit r p (decoding (((first ++ value) ++ rest) ++ l) n err x))
        same_rounds
      ∙ ap
          (λ bytes.
            decode_loop program depth noinit (suc (length es + rounds)) p (decoding bytes n err x))
          (append_three first value rest l)
      ∙ decode_loop_known program depth noinit fs behind dest all pos e.place (length es + rounds)
          field.tag e.number n (rest ++ l) err x p hpos inside at only typ size below (ground arith)
          small (omega arith)
      ∙ ap
          (λ n.
            decode_loop program depth noinit (length es + rounds) p'
              (decoding (rest ++ l) n err x'))
          left
      ∙ decode_loop_entries es e.place rounds k l err x' p' fit inside
          (see_required-iter program depth noinit (record p { iter = iter_of fs behind dest e })).0

  decode_fields_entries :
      (es : List Entry) (l : List ℕ) (err : Option Errmsg) (x : Machine)
      → All (Fits fs behind) es
      → 0 < length fs
      → let bytes = entries_bytes fs behind es in
        let m = store x.memory 4 (program.fixed_count_at depth) 0 in
        decode_fields program depth noinit
          (descriptor fs behind)
          dest
          (decoding (bytes ++ l) (length bytes) err x)
        ≡ check_complete program depth noinit
            (past fs behind dest program depth noinit es (start fs behind dest))
            (decoding l 0 err (record x { memory = stored fs behind dest es m }))
  unfolding decode_fields assign write_memory iter_at
  decode_fields_entries es l err x fit some =
      let bytes = entries_bytes fs behind es in
      let n = length bytes in
      let m = store x.memory 4 (program.fixed_count_at depth) 0 in
      let spare = suc (n - length es) in
      let long = length-entries_bytes fs behind es in
      let same_rounds : suc n ≡ length es + spare = omega arith in
      let same_left : n ≡ n + 0 = omega arith in
      let x' : Machine = record x { memory = m } in
      let final : Machine = record x { memory = stored fs behind dest es m } in
      ap (λ o. bind o (check_complete program depth noinit))
        (ap
            (λ r.
              decode_loop program depth noinit r (start fs behind dest)
                (decoding (bytes ++ l) n err x'))
            same_rounds
          ∙ ap
              (λ k.
                decode_loop program depth noinit (length es + spare) (start fs behind dest)
                  (decoding (bytes ++ l) k err x'))
              same_left
          ∙ decode_loop_entries es 0 spare 0 l err x' (start fs behind dest) fit some refl
          ∙ decode_loop-end program depth noinit (n - length es) 0 l err final
              (past fs behind dest program depth noinit es (start fs behind dest)) refl)

-- `pb_decode_noinit` in front of the values of any sequence of required fields of unsigned types, in any
-- order and with fields more than once, takes all of it: each number is in the memory at the address
-- of its field, a later one over an earlier one, and the result is that of the checks behind the loop on
-- the fields that have been seen. The fields have 1, 2, 4 or 8 bytes, the
-- numbers fit them, and no other field has the tag of one of them, which is below 2 ^ 29.
pub pb_decode_noinit_entries :
    {S : Type 0} (program : DecoderProgram S) (depth : ℕ) (fs behind : List Field) (dest : ℕ)
    (es : List Entry) (l : List ℕ) (err : Option Errmsg) (x : Machine)
    → All HasTag fs
    → 0 < length fs
    → All (Fits fs behind) es
    → let bytes = entries_bytes fs behind es in
      let m = store x.memory 4 (program.fixed_count_at depth) 0 in
      let noinit = pb_decode_noinit program depth in
      pb_decode_noinit program
        (suc depth)
        (descriptor fs behind)
        dest
        (decoding {S = S} (bytes ++ l) (length bytes) err x)
      ≡ check_complete program depth noinit
          (past fs behind dest program depth noinit es (start fs behind dest))
          (decoding l 0 err (record x { memory = stored fs behind dest es m }))
unfolding pb_decode_noinit
pb_decode_noinit_entries program depth fs behind dest es l err x all some fit =
    decode_fields_entries program depth (pb_decode_noinit program depth) fs behind dest all es l err
      x fit some
