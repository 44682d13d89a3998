-- ===== src/Nanopb/Decode/Message/Known.antt =====
-- Required fields of unsigned types in the loop of `pb_decode_noinit` of pb_decode.c.
use social_timeline.Common.{ℕ, suc, ◌+◌, ◌-◌, ◌^◌, ◌≤◌, ◌<◌, ◌≡◌, refl, arith, ◌∙◌, ap}
use social_timeline.Common.{
  ◌&&◌, if-cases, Bool, true, inl, inr, Option, List, ◌++◌, All, length, get_or, ltb, ◌==◌,
}
use social_timeline.Nanopb.Outcome.{Errmsg, ok, Run, bind, pure, ◌>>=◌, bind_assoc}
use social_timeline.Nanopb.Varint.Bytes.{varint}
use social_timeline.Nanopb.Wire.{wt_varint}
use social_timeline.Nanopb.Wire.Encode.{key}
use social_timeline.Nanopb.Field.{
  Field, FieldIter, last_field, current, htype, htype_required, ltype_uvarint, pb_field_iter_find,
  is_wanted,
}
use social_timeline.Nanopb.Field.Iterate.{HasTag, descriptor, iter_at, current-iter_at}
use social_timeline.Nanopb.Field.Find.{
  has_wanted, has_wanted_here, FindsAll, pb_field_iter_find_complete,
}
use social_timeline.Nanopb.Memory.{store}
use social_timeline.Nanopb.Heap.{Machine}
use social_timeline.Nanopb.Decode.State.{Decoding, DecoderProgram}
use social_timeline.Nanopb.Decode.Scalars.{pb_dec_uvarint}
use social_timeline.Nanopb.Decode.Values.{decoding, pb_dec_uvarint-number}
use social_timeline.Nanopb.Decode.Sizes.{Size}
use social_timeline.Nanopb.Decode.Required.{mark_seen}
use social_timeline.Nanopb.Decode.Nested.{decoder_for}
use social_timeline.Nanopb.Decode.Static.{decode_static_field}
use social_timeline.Nanopb.Decode.Fields.{decode_by_atype, decode_field}
use social_timeline.Nanopb.Decode.Message.{
  Progress, decode_next, decode_known, count_fixed, see_required, decode_loop,
  pb_max_required_fields,
}
use social_timeline.Nanopb.Decode.Message.Step.{decode_loop-key}

-- The field at `j`, and no other, is the one that has the tag.
abbrev pub IsOnly : ℕ → List Field → List Field → ℕ → Type 0
IsOnly tag fs behind j =
    (is_wanted tag (get_or (descriptor fs behind) j last_field) ≡ true)
    × ((i : ℕ)
        → i < length fs
        → is_wanted tag (get_or (descriptor fs behind) i last_field) ≡ true
        → i ≡ j)

found_only :
    (fs behind : List Field) (dest tag pos j : ℕ) (r : FieldIter × Bool)
    → has_wanted tag fs ≡ true
    → IsOnly tag fs behind j
    → FindsAll fs behind dest tag pos r
    → r ≡ (iter_at (descriptor fs behind) dest j, true)
found_only fs behind dest tag pos j r present (_, only) (inl (_, i, lt, hit, e)) =
    e ∙ ap (λ k. (iter_at (descriptor fs behind) dest k, true)) (only i lt hit)
found_only fs behind dest tag pos j r present (_, only) (inr (absent, _)) = absurd (ground arith)

module _ {S : Type 0} (program : DecoderProgram S) (depth : ℕ)
    (noinit : List Field → ℕ → Run (Decoding S) (Unit {0})) where
  by_atype-uvarint :
      (it : FieldIter) (d : Decoding S)
      → (current it).type ≡ ltype_uvarint
      → decode_by_atype program depth noinit wt_varint it d
        ≡ pb_dec_uvarint (current it) it.p_data d
  unfolding decode_by_atype decode_static_field decoder_for
  by_atype-uvarint it d typ = rw typ refl

  decode_field-uvarint :
      (it : FieldIter) (d : Decoding S)
      → (current it).type ≡ ltype_uvarint
      → decode_field program depth noinit wt_varint it d
        ≡ bind (pb_dec_uvarint (current it) it.p_data d) (λ _. pure it)
  unfolding decode_field
  decode_field-uvarint it d typ =
      rw typ (ap (λ o. bind o (λ _. pure it)) (by_atype-uvarint it d typ))

  count_fixed-uvarint :
      (p : Progress) (d : Decoding S)
      → (current p.iter).type ≡ ltype_uvarint
      → count_fixed program depth noinit p d ≡ ok p d
  unfolding count_fixed
  count_fixed-uvarint p d typ = rw typ refl

  pub see_required-iter :
      (p : Progress)
      → ((see_required program depth noinit p).iter ≡ p.iter)
        × (record (see_required program depth noinit p) { iter = p.iter }
            ≡ see_required program depth noinit p)
  unfolding see_required
  see_required-iter p =
      let seen : Progress = record p {
        fields_seen = mark_seen p.iter.required_field_index p.fields_seen;
      } in
      if-cases (λ (q : Progress). (q.iter ≡ p.iter) × (record q { iter = p.iter } ≡ q))
        ((htype (current p.iter).type == htype_required)
          && ltb p.iter.required_field_index pb_max_required_fields)
        seen p (refl, refl) (refl, refl)

  decode_known-uvarint :
      (p : Progress) (d : Decoding S)
      → (current p.iter).type ≡ ltype_uvarint
      → decode_known program depth noinit wt_varint p d
        ≡ bind
            (pb_dec_uvarint (current p.iter) p.iter.p_data d)
            (λ _. pure (see_required program depth noinit p))
  unfolding decode_known
  decode_known-uvarint p d typ =
      let seen = see_required program depth noinit p in
      let finish : FieldIter → Run (Decoding S) Progress = λ it. pure (record seen { iter = it }) in
      ap
        (λ o. bind o λ p'.
          let q = see_required program depth noinit p' in
          decode_field program depth noinit wt_varint q.iter >>= λ it.
          pure (record q { iter = it }))
        (count_fixed-uvarint p d typ)
      ∙ ap (λ it. bind (decode_field program depth noinit wt_varint it d) finish)
          (see_required-iter p).0
      ∙ ap (λ o. bind o finish) (decode_field-uvarint p.iter d typ)
      ∙ bind_assoc (pb_dec_uvarint (current p.iter) p.iter.p_data d) (λ _. pure p.iter) finish
      ∙ ap (λ q. bind (pb_dec_uvarint (current p.iter) p.iter.p_data d) (λ _. pure q))
          (see_required-iter p).1

  -- A value of a required field of an unsigned type that the message has is decoded wherever the iterator
  -- stands: the loop of `pb_decode_noinit` goes on behind it, at the field, which is marked as seen, with
  -- the number in the memory at the address of the field. No other field has the tag, and the number
  -- fits the field.
  pub decode_loop_known :
      (fs behind : List Field) (dest : ℕ) (all : All HasTag fs) (pos j : ℕ) (rounds tag v n : ℕ)
      (l : List ℕ) (err : Option Errmsg) (x : Machine) (p : Progress)
      → pos < length fs
      → j < length fs
      → p.iter ≡ iter_at (descriptor fs behind) dest pos
      → IsOnly tag fs behind j
      → let field = get_or (descriptor fs behind) j last_field in
        let it = iter_at (descriptor fs behind) dest j in
        let size = length (varint 9 (key wt_varint tag)) in
        field.type ≡ ltype_uvarint
        → Size field.data_size
        → v < 256 ^ field.data_size
        → 0 < tag
        → tag < 2 ^ 29
        → size + length (varint 9 v) ≤ n
        → decode_loop program depth noinit
            (suc rounds)
            p
            (decoding (varint 9 (key wt_varint tag) ++ (varint 9 v ++ l)) n err x)
          ≡ decode_loop program depth noinit rounds
              (see_required program depth noinit (record p { iter = it }))
              (decoding l
                (n - size - length (varint 9 v))
                err
                (record x { memory = store x.memory field.data_size it.p_data v }))
  unfolding decode_next
  decode_loop_known fs behind dest all pos j rounds tag v n l err x p hpos hj at only typ s h some
        small long =
      let it = iter_at (descriptor fs behind) dest j in
      let size = length (varint 9 (key wt_varint tag)) in
      let here = current-iter_at fs behind dest all j hj in
      let found : pb_field_iter_find tag p.iter ≡ (it, true) =
        ap (pb_field_iter_find tag) at
        ∙ found_only fs behind dest tag pos j
            (pb_field_iter_find tag (iter_at (descriptor fs behind) dest pos))
            (has_wanted_here tag fs behind j hj only.0) only
            (pb_field_iter_find_complete fs behind dest all tag pos hpos) in
      let d : Decoding S = decoding (varint 9 v ++ l) (n - size) err x in
      decode_loop-key program depth noinit rounds wt_varint tag n (varint 9 v ++ l) err x p
        (omega arith) some small (omega arith)
      ∙ rw found (
          ap (λ o. bind o (decode_loop program depth noinit rounds))
            (decode_known-uvarint (record p { iter = it }) d (ap (λ f. f.type) here ∙ typ)
              ∙ ap
                  (λ f.
                    bind (pb_dec_uvarint f it.p_data d)
                      (λ _. pure (see_required program depth noinit (record p { iter = it }))))
                  here
              ∙ ap
                  (λ o.
                    bind o (λ _. pure (see_required program depth noinit (record p { iter = it }))))
                  (pb_dec_uvarint-number _ it.p_data v (n - size) l err x s h (omega arith)).0))
