-- ===== src/Nanopb/Field/Iterate.antt =====
-- One turn of the iterator (`pb_field_iter_begin` and `pb_field_iter_next` of pb_common.c) round a
-- descriptor array that ends with PB_LAST_FIELD.
use social_timeline.Common.{ℕ, zero, suc, ◌<◌, ◌≡◌, ◌≢◌, refl, arith, ◌∙◌, ap}
use social_timeline.Common.{
  true, false, List, [], ◌∷◌, ◌++◌, All, length, get_or, get_or-append, ◌==◌, if◌then◌else◌,
  Bool-cases, inl, inr, if-cases,
}
use social_timeline.Nanopb.Field.{
  Field, last_field, FieldIter, current, step_over, pb_field_iter_begin, pb_field_iter_next,
}

-- A field that is not the terminator.
abbrev pub HasTag : Field → Type 0
HasTag f = f.tag ≢ 0

-- The array of a message: its fields, the terminator, and whatever lies behind it.
abbrev pub descriptor : List Field → List Field → List Field
descriptor fs behind = fs ++ (last_field ∷ behind)

-- The iterator behind `k` calls of `pb_field_iter_next`.
unfoldable pub iter_at : List Field → ℕ → ℕ → FieldIter
iter_at fields dest zero = (pb_field_iter_begin fields dest).0
iter_at fields dest (suc k) = (pb_field_iter_next (iter_at fields dest k)).0

pub get_or-HasTag :
    (fs behind : List Field) (k : ℕ)
    → All HasTag fs
    → k < length fs
    → HasTag (get_or (descriptor fs behind) k last_field)
get_or-HasTag [] behind k all h = absurd (omega arith)
get_or-HasTag (f ∷ fs) behind zero (p, all) h = p
get_or-HasTag (f ∷ fs) behind (suc k) (p, all) h = get_or-HasTag fs behind k all (omega arith)

step_over-pos :
    (prev : Field) (it : FieldIter)
    → ((step_over prev it).start ≡ it.start)
      × ((step_over prev it).pos ≡ suc it.pos)
      × ((step_over prev it).dest_struct ≡ it.dest_struct)
unfolding step_over
step_over-pos prev it =
    if-cases
      (λ (r : FieldIter).
        (r.start ≡ it.start) × (r.pos ≡ suc it.pos) × (r.dest_struct ≡ it.dest_struct))
      _ _ _ (refl, refl, refl) (refl, refl, refl)

pub next_inside :
    (it : FieldIter)
    → HasTag (current it)
    → HasTag (get_or it.start (suc it.pos) last_field)
    → pb_field_iter_next it ≡ (step_over (current it) it, true)
unfolding pb_field_iter_next
next_inside it here there = ground arith

pub iter_at-next :
    (fields : List Field) (dest k : ℕ)
    → HasTag (current (iter_at fields dest k))
    → HasTag (get_or (iter_at fields dest k).start (suc (iter_at fields dest k).pos) last_field)
    → iter_at fields dest (suc k)
      ≡ step_over (current (iter_at fields dest k)) (iter_at fields dest k)
unfolding iter_at
iter_at-next fields dest k here there =
    ap (λ r. r.0) (next_inside (iter_at fields dest k) here there)

pub next_wraps :
    (it : FieldIter)
    → HasTag (current it)
    → (get_or it.start (suc it.pos) last_field).tag ≡ 0
    → pb_field_iter_next it ≡ ((pb_field_iter_begin it.start it.dest_struct).0, false)
unfolding pb_field_iter_next
next_wraps it here there = ground arith

module _ (fs behind : List Field) (dest : ℕ) (all : All HasTag fs) where
  abbrev at : ℕ → FieldIter
  at = iter_at (descriptor fs behind) dest

  -- Within the array the iterator stands where it has been moved to.
  pub iter_at-pos :
      (k : ℕ)
      → k < length fs
      → ((at k).start ≡ descriptor fs behind) × ((at k).pos ≡ k) × ((at k).dest_struct ≡ dest)
  unfolding pb_field_iter_begin iter_at
  iter_at-pos zero h = (refl, refl, refl)
  iter_at-pos (suc k) h =
      let (start, pos, dest') = iter_at-pos k (omega arith) in
      let (start', pos', dest'') = step_over-pos (current (at k)) (at k) in
      let moved =
        iter_at-next (descriptor fs behind) dest k
          (rw (start, pos) (get_or-HasTag fs behind k all (omega arith)))
          (rw (start, pos) (get_or-HasTag fs behind (suc k) all h)) in
      rw moved (start' ∙ start, pos' ∙ ap suc pos, dest'' ∙ dest')

  pub current-iter_at :
      (k : ℕ) → k < length fs → current (at k) ≡ get_or (descriptor fs behind) k last_field
  current-iter_at k h = let (start, pos, _) = iter_at-pos k h in rw (start, pos)

  -- At any field of a message but the last, `pb_field_iter_next` moves to the next one and says true; at
  -- the last one it starts over and says false.
  pub pb_field_iter_next_turns :
      (k : ℕ)
      → k < length fs
      → pb_field_iter_next (at k)
        ≡ (if suc k == length fs then (at 0, false) else (at (suc k), true))
  unfolding pb_field_iter_begin iter_at pb_field_iter_next
  pb_field_iter_next_turns k h =
      let (start, pos, dest') = iter_at-pos k h in
      let here : HasTag (current (at k)) =
        rw (current-iter_at k h) (get_or-HasTag fs behind k all h) in
      elim (Bool-cases (suc k == length fs)) [
        | inl last ↦
            let e : suc k ≡ length fs = ground arith in
            let ends : (get_or (at k).start (suc (at k).pos) last_field).tag ≡ 0 =
              rw (start, pos, e, get_or-append fs behind last_field last_field) refl in
            rw last (next_wraps (at k) here ends ∙ rw (start, dest'))
        | inr more ↦
            let next : HasTag (get_or (at k).start (suc (at k).pos) last_field) =
              rw (start, pos) (get_or-HasTag fs behind (suc k) all (ground arith)) in
            rw (more, iter_at-next (descriptor fs behind) dest k here next)
              (next_inside (at k) here next)
      ]
