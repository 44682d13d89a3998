-- ===== src/Nanopb/Decode/Message/Count.antt =====
-- The number of required fields that pb_decode.c finds for a message whose fields are all required and
-- of unsigned types.
use social_timeline.Common.{ℕ, zero, suc, ◌+◌, ◌-◌, ◌≤◌, ◌<◌, ◌≡◌, refl, arith, ◌∙◌, ap}
use social_timeline.Common.{
  false, inl, inr, List, ◌∷◌, All, length, ◌==◌, Bool-cases, length-append,
}
use social_timeline.Nanopb.Field.{
  Field, FieldIter, last_field, current, ltype_uvarint, pb_field_iter_begin, step_over,
}
use social_timeline.Nanopb.Field.Iterate.{
  HasTag, descriptor, iter_at, iter_at-pos, iter_at-next, get_or-HasTag, current-iter_at,
  pb_field_iter_next_turns,
}
use social_timeline.Nanopb.Decode.Message.{seek_end, required_count}
use social_timeline.Nanopb.Decode.Message.Sequence.{field_at, start}

-- All fields of the message are required and of unsigned types.
abbrev pub AllUnsigned : List Field → List Field → Type 0
AllUnsigned fs behind = (j : ℕ) → j < length fs → (field_at fs behind j).type ≡ ltype_uvarint

module _ (fs behind : List Field) (dest : ℕ) (all : All HasTag fs)
    (unsigned : AllUnsigned fs behind) where
  abbrev at : ℕ → FieldIter
  at = iter_at (descriptor fs behind) dest

  pub type_at : (j : ℕ) → j < length fs → (current (at j)).type ≡ ltype_uvarint
  type_at j h = ap (λ f. f.type) (current-iter_at fs behind dest all j h) ∙ unsigned j h

  step_over-index :
      (prev : Field) (it : FieldIter)
      → prev.type ≡ ltype_uvarint
      → (step_over prev it).required_field_index ≡ suc it.required_field_index
  unfolding step_over
  step_over-index prev it typ = rw typ refl

  pub index_at : (j : ℕ) → j < length fs → (at j).required_field_index ≡ j
  unfolding iter_at pb_field_iter_begin
  index_at zero h = refl
  index_at (suc j) h =
      let (start, pos, _) = iter_at-pos fs behind dest all j (omega arith) in
      let here = current-iter_at fs behind dest all j (omega arith) in
      let moved =
        iter_at-next (descriptor fs behind) dest j
          (rw here (get_or-HasTag fs behind j all (omega arith)))
          (rw (start, pos) (get_or-HasTag fs behind (suc j) all h)) in
      ap (λ it. it.required_field_index) moved
      ∙ step_over-index (current (at j)) (at j) (type_at j (omega arith))
      ∙ ap suc (index_at j (omega arith))

  seek_end-last :
      (fuel k : ℕ)
      → k < length fs
      → length fs ≤ k + fuel
      → seek_end fuel (at k) ≡ (at (length fs - 1), at 0)
  unfolding seek_end
  seek_end-last zero k h enough = absurd (omega arith)
  seek_end-last (suc fuel) k h enough = elim (Bool-cases (suc k == length fs)) [
    | inl last ↦
        let e : k ≡ length fs - 1 = ground arith in
        rw (pb_field_iter_next_turns fs behind dest all k h, last) (ap (λ m. (at m, at 0)) e)
    | inr more ↦
        rw (pb_field_iter_next_turns fs behind dest all k h, more)
          (seek_end-last fuel (suc k) (ground arith) (omega arith))
  ]

  pub required_count-iter_at :
      (k : ℕ) → k < length fs → length fs ≤ 64 → required_count (at k) ≡ length fs
  unfolding required_count
  required_count-iter_at k h few =
      let last = length fs - 1 in
      let (start, _, _) = iter_at-pos fs behind dest all k h in
      let long = length-append fs (last_field ∷ behind) in
      let ends : seek_end (length (at k).start) (at k) ≡ (at last, at 0) =
        ap (λ l. seek_end (length l) (at k)) start
        ∙ seek_end-last (length (descriptor fs behind)) k h (omega (arith, long)) in
      let typ = type_at last (omega arith) in
      let index = index_at last (omega arith) in
      let first : HasTag (current (at 0)) =
        rw (current-iter_at fs behind dest all 0 (omega arith))
          (get_or-HasTag fs behind 0 all (omega arith)) in
      let some_tag : ((current (at 0)).tag == 0) ≡ false = ground arith in
      rw (ends, typ, some_tag, index) (ground arith)
