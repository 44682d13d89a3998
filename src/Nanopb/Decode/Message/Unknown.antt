-- ===== src/Nanopb/Decode/Message/Unknown.antt =====
-- Fields that the message does not have, in `pb_decode_noinit` of pb_decode.c.
use social_timeline.Common.{ℕ, suc, ◌+◌, ◌-◌, ◌^◌, ◌≤◌, ◌<◌, ◌≡◌, refl, arith, ◌∙◌, ap}
use social_timeline.Common.{
  Bool, false, inl, inr, Option, List, ◌++◌, All, length, leb, if◌then◌else◌, if-cases, sym,
  Bool-cases,
}
use social_timeline.Nanopb.Outcome.{Errmsg, ok, Run, bind}
use social_timeline.Nanopb.Varint.Bytes.{varint}
use social_timeline.Nanopb.Wire.Encode.{key}
use social_timeline.Nanopb.Wire.Skip.{IsValue, pb_skip_field_value}
use social_timeline.Nanopb.Field.{Field, FieldIter, pb_field_iter_find}
use social_timeline.Nanopb.Field.Iterate.{HasTag, descriptor, iter_at}
use social_timeline.Nanopb.Field.Find.{has_wanted, FindsAll, pb_field_iter_find_complete}
use social_timeline.Nanopb.Heap.{Machine}
use social_timeline.Nanopb.Decode.State.{Decoding, DecoderProgram, on_stream, with_machine}
use social_timeline.Nanopb.Decode.Values.{decoding}
use social_timeline.Nanopb.Decode.Fields.{find_extension_field}
use social_timeline.Nanopb.Decode.Message.{
  Progress, skip_unknown, decode_unknown, decode_next, decode_loop,
}
use social_timeline.Nanopb.Decode.Message.Step.{decode_loop-key}

-- The locals that a field which is skipped does not change.
abbrev pub SameFields : Progress → Progress → Type 0
SameFields p q = (q.fields_seen ≡ p.fields_seen) × (q.fixed_count_field ≡ p.fixed_count_field)

not_found :
    (fs behind : List Field) (dest tag pos : ℕ) (r : FieldIter × Bool)
    → has_wanted tag fs ≡ false
    → FindsAll fs behind dest tag pos r
    → r ≡ (iter_at (descriptor fs behind) dest pos, false)
not_found fs behind dest tag pos r absent (inl (present, _, _, _, _)) = absurd (ground arith)
not_found fs behind dest tag pos r absent (inr (_, e)) = e

module _ {S : Type 0} (program : DecoderProgram S) (depth : ℕ)
    (noinit : List Field → ℕ → Run (Decoding S) (Unit {0})) where
  skip_unknown_value :
      (wire_type n : ℕ) (value l : List ℕ) (err : Option Errmsg) (x : Machine) (p : Progress)
      → IsValue wire_type value
      → length value ≤ n
      → skip_unknown program depth noinit wire_type p (decoding (value ++ l) n err x)
        ≡ ok p (decoding l (n - length value) err x)
  unfolding skip_unknown on_stream with_machine
  skip_unknown_value wire_type n value l err x p is_value long =
      rw (pb_skip_field_value {S = S} wire_type value l n err is_value long)

  -- The locals behind an unknown field of a message without extensions.
  unfoldable past_unknown : ℕ → Progress → Progress
  past_unknown tag p =
      if leb p.extension_range_start tag
      then record p { iter = (find_extension_field p.iter).0; extension_range_start = 2 ^ 32 - 1 }
      else p

  past_unknown-SameFields : (tag : ℕ) (p : Progress) → SameFields p (past_unknown tag p)
  unfolding past_unknown
  past_unknown-SameFields tag p =
      if-cases (SameFields p) (leb p.extension_range_start tag)
        (record p { iter = (find_extension_field p.iter).0; extension_range_start = 2 ^ 32 - 1 }) p
        (refl, refl) (refl, refl)

  decode_unknown_value :
      (wire_type tag n : ℕ) (value l : List ℕ) (err : Option Errmsg) (x : Machine) (p : Progress)
      → IsValue wire_type value
      → length value ≤ n
      → tag < 2 ^ 29
      → (find_extension_field p.iter).1 ≡ false
      → decode_unknown program depth noinit
          (record { wire_type = wire_type; tag = tag })
          p
          (decoding (value ++ l) n err x)
        ≡ ok (past_unknown tag p) (decoding l (n - length value) err x)
  unfolding decode_unknown past_unknown
  decode_unknown_value wire_type tag n value l err x p is_value long small no_extension =
      let out_of_range : leb (2 ^ 32 - 1) tag ≡ false = ground arith in
      elim (Bool-cases (leb p.extension_range_start tag)) [
        | inl first ↦
            rw (no_extension, first, out_of_range)
              (skip_unknown_value wire_type n value l err x _ is_value long)
        | inr later ↦ rw later (skip_unknown_value wire_type n value l err x p is_value long)
      ]

  -- A field that the message does not have is passed over by `pb_decode_noinit`, whatever its wire type:
  -- the loop goes on behind it with the memory as it was and with the same fields seen. The message has
  -- no extensions, and the iterator stands at one of its fields.
  pub decode_loop_unknown :
      (fs behind : List Field) (dest : ℕ) (all : All HasTag fs) (pos : ℕ)
      (rounds wire_type tag n : ℕ) (value l : List ℕ) (err : Option Errmsg) (x : Machine)
      (p : Progress)
      → pos < length fs
      → p.iter ≡ iter_at (descriptor fs behind) dest pos
      → has_wanted tag fs ≡ false
      → (find_extension_field p.iter).1 ≡ false
      → IsValue wire_type value
      → wire_type < 8
      → 0 < tag
      → tag < 2 ^ 29
      → length (varint 9 (key wire_type tag)) + length value ≤ n
      → let size = length (varint 9 (key wire_type tag)) in
        (q : Progress) × SameFields p q
        × (decode_loop program depth noinit
              (suc rounds)
              p
              (decoding (varint 9 (key wire_type tag) ++ (value ++ l)) n err x)
            ≡ decode_loop program depth noinit rounds q
                (decoding l (n - size - length value) err x))
  unfolding decode_next
  decode_loop_unknown fs behind dest all pos rounds wire_type tag n value l err x p hpos at absent
        no_extension is_value hw ht small long =
      let size = length (varint 9 (key wire_type tag)) in
      let missed =
        ap (pb_field_iter_find tag) at
        ∙ not_found fs behind dest tag pos
            (pb_field_iter_find tag (iter_at (descriptor fs behind) dest pos)) absent
            (pb_field_iter_find_complete fs behind dest all tag pos hpos) in
      let found : pb_field_iter_find tag p.iter ≡ (p.iter, false) =
        missed ∙ ap (λ it. (it, false)) (sym at) in
      (
        past_unknown tag p,
        past_unknown-SameFields tag p,
        decode_loop-key program depth noinit rounds wire_type tag n (value ++ l) err x p hw ht small
              (omega arith)
            ∙ rw found (
                ap (λ o. bind o (decode_loop program depth noinit rounds))
                  (decode_unknown_value wire_type tag (n - size) value l err x p is_value
                    (omega arith) small no_extension)),
      )
