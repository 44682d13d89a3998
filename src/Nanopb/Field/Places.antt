-- ===== src/Nanopb/Field/Places.antt =====
-- Where the iterator of pb_common.c finds the fields of a structure, described by the descriptor alone.
use social_timeline.Common.{
  ℕ, zero, suc, ◌+◌, ◌-◌, ◌*◌, ◌^◌, ◌≤◌, ◌<◌, ◌≡◌, refl, arith, ◌∙◌, ap, inl, inr,
}
use social_timeline.Common.{
  Bool, true, false, List, [], ◌∷◌, All, length, get_or, get_or-append, ◌==◌, ◌&&◌, if◌then◌else◌,
  Bool-cases, u64,
}
use native.Mathlib.Nat.{mul-le-mul}
use social_timeline.Nanopb.Field.{
  Field, last_field, FieldIter, htype, atype, htype_required, htype_repeated, htype_oneof,
  atype_static, atype_pointer, pb_size_max, add_offset, field_extent, step_over,
  pb_field_iter_begin, pb_field_iter_next,
}
use social_timeline.Nanopb.Field.Iterate.{
  HasTag, descriptor, get_or-HasTag, next_inside, next_wraps,
}

-- The sizes are numbers of `pb_size_t`.
abbrev pub HasSizes : Field → Type 0
HasSizes f = (f.data_size < 2 ^ 32) × (f.array_size < 2 ^ 32)

-- The room that a field has in the structure: that of a pointer, of all entries of a static array, or
-- of one value.
unfoldable pub room : Field → ℕ
room f =
    if atype f.type == atype_pointer
    then 8
    else if (atype f.type == atype_static) && (htype f.type == htype_repeated)
    then f.data_size * f.array_size
    else f.data_size

-- The second field is a later member of the union that the first one is in.
unfoldable pub joins : Field → Field → Bool
joins f g =
    (htype f.type == htype_oneof)
    && ((htype g.type == htype_oneof) && (g.data_offset == pb_size_max))

module _ (fs : List Field) where
  abbrev pub field : ℕ → Field
  field k = get_or fs k last_field

  -- The number of required fields among the first `k`.
  unfoldable pub required_before : ℕ → ℕ
  required_before zero = 0
  required_before (suc k) =
      if htype (field k).type == htype_required then suc (required_before k) else required_before k

  -- The first field of the union that the field at `k` is in, and the field itself if it is in none.
  unfoldable pub first_member : ℕ → ℕ
  first_member zero = 0
  first_member (suc k) = if joins (field k) (field (suc k)) then first_member k else suc k

  -- How far into the structure a field lies. The members of a union lie at the same place; another
  -- field lies `data_offset` behind the end of the one before it.
  unfoldable pub offset : ℕ → ℕ
  offset zero = (field 0).data_offset
  offset (suc k) =
      if joins (field k) (field (suc k))
      then offset k
      else offset k + room (field k) + (field (suc k)).data_offset

-- The iterator at the field `k` of the structure at `dest`. All members of a union have the same count or
-- `which_` field, which is given by the first of them.
unfoldable pub place : List Field → ℕ → ℕ → FieldIter
place fields dest k = record {
  start = fields;
  pos = k;
  required_field_index = required_before fields k;
  dest_struct = dest;
  p_data = dest + offset fields k;
  p_size = add_offset (dest + offset fields k) (field fields (first_member fields k)).size_offset;
}

field_extent-room : (f : Field) → HasSizes f → field_extent f ≡ room f
unfolding field_extent room
field_extent-room f (small, small') =
    let bound : f.data_size * f.array_size ≤ (2 ^ 32 - 1) * (2 ^ 32 - 1) =
      mul-le-mul {n₂ = 2 ^ 32 - 1} {m₂ = 2 ^ 32 - 1} (omega arith) (omega arith) in
    let whole : u64 (f.data_size * f.array_size) ≡ f.data_size * f.array_size =
      omega (arith, bound) in
    elim (Bool-cases (atype f.type == atype_pointer)) [
      | inl pointer ↦
          let not_static : (atype f.type == atype_static) ≡ false = ground arith in
          rw (whole, pointer, not_static) refl
      | inr other ↦ rw (whole, other) refl
    ]

module _ (fields : List Field) (dest : ℕ) where
  step_over-place :
      (k : ℕ)
      → HasSizes (field fields k)
      → step_over (field fields k) (place fields dest k) ≡ place fields dest (suc k)
  unfolding step_over place required_before first_member offset joins
  step_over-place k sizes =
      let f = field fields k in
      let g = field fields (suc k) in
      let shared =
        (htype f.type == htype_oneof)
        && ((htype g.type == htype_oneof) && (g.data_offset == pb_size_max)) in
      let extent = field_extent-room f sizes in
      elim (Bool-cases shared) [
        | inl member ↦
            let not_required : (htype f.type == htype_required) ≡ false = ground arith in
            rw (member, not_required) refl
        | inr apart ↦
            let address : dest + offset fields k + room f + g.data_offset
                ≡ dest + (offset fields k + room f + g.data_offset) =
              omega arith in
            rw (apart, extent, address) refl
      ]

get_or-HasSizes :
    (fs behind : List Field) (k : ℕ)
    → All HasSizes fs
    → k < length fs
    → HasSizes (field (descriptor fs behind) k)
get_or-HasSizes [] behind k sized h = absurd (omega arith)
get_or-HasSizes (f ∷ fs) behind zero (sizes, sized) h = sizes
get_or-HasSizes (f ∷ fs) behind (suc k) (sizes, sized) h =
    get_or-HasSizes fs behind k sized (omega arith)

begin_place :
    (fs behind : List Field) (dest : ℕ)
    → All HasTag fs
    → 0 < length fs
    → pb_field_iter_begin (descriptor fs behind) dest ≡ (place (descriptor fs behind) dest 0, true)
unfolding pb_field_iter_begin place required_before first_member offset
begin_place fs behind dest all h =
    let first = get_or-HasTag fs behind 0 all h in
    let some_tag : ((field (descriptor fs behind) 0).tag == 0) ≡ false = ground arith in
    rw some_tag refl

next_place :
    (fs behind : List Field) (dest : ℕ)
    → All HasTag fs
    → All HasSizes fs
    → (k : ℕ) → k < length fs
    → pb_field_iter_next (place (descriptor fs behind) dest k) ≡ (
        if suc k == length fs
        then (place (descriptor fs behind) dest 0, false)
        else (place (descriptor fs behind) dest (suc k), true))
unfolding place
next_place fs behind dest all sized k h =
    let at = place (descriptor fs behind) dest in
    let here = get_or-HasTag fs behind k all h in
    elim (Bool-cases (suc k == length fs)) [
      | inl last ↦
          let e : suc k ≡ length fs = ground arith in
          let ends : (field (descriptor fs behind) (suc k)).tag ≡ 0 =
            rw (e, get_or-append fs behind last_field last_field) refl in
          rw last (
            next_wraps (at k) here ends
            ∙ ap (λ r. (r.0, false)) (begin_place fs behind dest all (omega arith)))
      | inr more ↦ rw more (
          next_inside (at k) here (get_or-HasTag fs behind (suc k) all (ground arith))
          ∙ ap (λ it. (it, true))
              (step_over-place (descriptor fs behind) dest k (get_or-HasSizes fs behind k sized h)))
    ]

-- `pb_field_iter_begin` finds the place of the first field of a structure. From the place of any field,
-- `pb_field_iter_next` moves to that of the next one and says true; from the last one it goes back to
-- the first and says false. The places are given by the descriptor alone. The fields have tags other than
-- 0 and sizes of 32 bits.
pub pb_field_iter_next_place :
    (fs behind : List Field) (dest : ℕ)
    → All HasTag fs
    → All HasSizes fs
    → (k : ℕ) → k < length fs
    → let at = place (descriptor fs behind) dest in
      (pb_field_iter_begin (descriptor fs behind) dest ≡ (at 0, true))
      × (pb_field_iter_next (at k)
          ≡ (if suc k == length fs then (at 0, false) else (at (suc k), true)))
pb_field_iter_next_place fs behind dest all sized k h =
    (begin_place fs behind dest all (omega arith), next_place fs behind dest all sized k h)
