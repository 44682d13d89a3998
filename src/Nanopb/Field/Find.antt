-- ===== src/Nanopb/Field/Find.antt =====
-- The search for a tag (`pb_field_iter_find` of pb_common.c), from any field of a message on.
use social_timeline.Common.{
  ℕ, zero, suc, ◌+◌, ◌-◌, ◌≤◌, ◌<◌, ◌≡◌, refl, arith, ◌∙◌, ap, sym, subst, ◌||◌,
}
use social_timeline.Common.{
  Bool, true, false, List, [], ◌∷◌, ◌⊎◌, inl, inr, All, length, length-append, get_or, ltb, ◌==◌,
  if◌then◌else◌, Bool-cases,
}
use social_timeline.Nanopb.Field.{
  Field, last_field, FieldIter, pb_field_iter_next, is_wanted, find_loop, pb_field_iter_find,
}
use social_timeline.Nanopb.Field.Iterate.{
  HasTag, descriptor, iter_at, iter_at-pos, current-iter_at, pb_field_iter_next_turns,
}

-- The position `i` fields behind `p`, round an array of `n`.
unfoldable around : ℕ → ℕ → ℕ → ℕ
around n p i = if ltb (p + i) n then p + i else p + i - n

around-lt : (n p i : ℕ) → p < n → i < n → around n p i < n
unfolding around
around-lt n p i hp hi = ground arith

around_0 : (n p : ℕ) → p < n → around n p 0 ≡ p
unfolding around
around_0 n p h = ground arith

-- The next position round the array.
around-next :
    (n p i : ℕ)
    → p < n
    → i < n
    → (if suc (around n p i) == n then 0 else suc (around n p i))
      ≡ (if suc i == n then p else around n p (suc i))
unfolding around
around-next n p i hp hi = ground arith

around_apart : (n p i : ℕ) → p < n → suc i < n → (around n p (suc i) == p) ≡ false
unfolding around
around_apart n p i hp hi = ground arith

-- Every position is reached.
around_all : (n p j : ℕ) → p < n → j < n → (i : ℕ) × (i < n) × (around n p i ≡ j)
unfolding around
around_all n p j hp hj = elim (Bool-cases (ltb j p)) [
  | inl behind ↦ (n + j - p, ground arith, ground arith)
  | inr ahead ↦ (j - p, ground arith, ground arith)
]

module _ (fs behind : List Field) (dest : ℕ) (all : All HasTag fs) (tag : ℕ) where
  -- The field at `k` is one that is looked for.
  abbrev pub Wanted : ℕ → Type 0
  Wanted k = is_wanted tag (get_or (descriptor fs behind) k last_field) ≡ true

  abbrev at : ℕ → FieldIter
  at = iter_at (descriptor fs behind) dest

  -- The search ends at a field that is wanted; or it ends where it began, and none from `i` on is.
  abbrev Searched : ℕ → ℕ → FieldIter × Bool → Type 0
  Searched p i r =
      ((j : ℕ) × (j < length fs) × Wanted j × (r ≡ (at j, true)))
      ⊎ ((r ≡ (at p, false))
          × ((i' : ℕ)
              → i ≤ i'
              → i' < length fs
              → is_wanted tag (get_or (descriptor fs behind) (around (length fs) p i') last_field)
                ≡ false))

  next_position :
      (k : ℕ)
      → k < length fs
      → (pb_field_iter_next (at k)).0 ≡ at (if suc k == length fs then 0 else suc k)
  next_position k h =
      ap (λ r. r.0) (pb_field_iter_next_turns fs behind dest all k h) ∙ either (suc k == length fs)
    where
      either :
          (b : Bool)
          → (if◌then◌else◌ {A = FieldIter × Bool} b (at 0, false) (at (suc k), true)).0
            ≡ at (if b then 0 else suc k)
      either true = refl
      either false = refl

  next_around :
      (p i : ℕ)
      → p < length fs
      → i < length fs
      → (pb_field_iter_next (at (around (length fs) p i))).0
        ≡ at (if suc i == length fs then p else around (length fs) p (suc i))
  next_around p i hp hi =
      next_position (around (length fs) p i) (around-lt (length fs) p i hp hi)
      ∙ ap at (around-next (length fs) p i hp hi)

  -- One more position that is not wanted.
  extend :
      (p i : ℕ) (r : FieldIter × Bool)
      → is_wanted tag (get_or (descriptor fs behind) (around (length fs) p i) last_field) ≡ false
      → Searched p (suc i) r
      → Searched p i r
  extend p i r not_here (inl found) = inl found
  extend p i r not_here (inr (e, none_later)) = inr (e, go)
    where
      go :
          (i' : ℕ)
          → i ≤ i'
          → i' < length fs
          → is_wanted tag (get_or (descriptor fs behind) (around (length fs) p i') last_field)
            ≡ false
      go i' le lt = elim (Bool-cases (i == i')) [
        | inl same ↦
            subst
              (λ m.
                is_wanted tag (get_or (descriptor fs behind) (around (length fs) p m) last_field)
                ≡ false)
              (let e : i ≡ i' = ground arith in e) not_here
        | inr other ↦ none_later i' (ground arith) lt
      ]

  find_loop-Searched :
      (fuel p i : ℕ)
      → p < length fs
      → i < length fs
      → length fs ≤ i + fuel
      → Searched p i (find_loop fuel p tag (at (around (length fs) p i)))
  unfolding find_loop
  find_loop-Searched zero p i hp hi enough = absurd (omega arith)
  find_loop-Searched (suc fuel) p i hp hi enough =
      let q = around (length fs) p i in
      let q_lt = around-lt (length fs) p i hp hi in
      let here = current-iter_at fs behind dest all q q_lt in
      elim (Bool-cases (is_wanted tag (get_or (descriptor fs behind) q last_field))) [
        | inl hit ↦ rw (here, hit) (inl (q, q_lt, hit, refl))
        | inr miss ↦
            rw (here, miss, next_around p i hp hi)
              (elim (Bool-cases (suc i == length fs)) [
                | inl last ↦
                    let (_, pos, _) = iter_at-pos fs behind dest all p hp in
                    let same : ((at p).pos == p) ≡ true = ground arith in
                    rw (last, same)
                      (inr (refl, λ i' le lt. rw (let e : i' ≡ i = ground arith in e) miss))
                | inr more ↦
                    let next = suc i in
                    let next_lt : next < length fs = ground arith in
                    let (_, pos, _) =
                      iter_at-pos fs behind dest all (around (length fs) p next)
                        (around-lt (length fs) p next hp next_lt) in
                    let apart : ((at (around (length fs) p next)).pos == p) ≡ false =
                      ap (λ k. k == p) pos ∙ around_apart (length fs) p i hp next_lt in
                    rw (more, apart)
                      (extend p i _ miss (find_loop-Searched fuel p next hp next_lt (omega arith)))
              ])
      ]

  pb_field_iter_find-Searched :
      (p : ℕ) → p < length fs → Searched p 0 (pb_field_iter_find tag (at p))
  unfolding pb_field_iter_find
  pb_field_iter_find-Searched p hp =
      let (start, pos, _) = iter_at-pos fs behind dest all p hp in
      let long = length-append fs (last_field ∷ behind) in
      let d = descriptor fs behind in
      let searched =
        find_loop-Searched (suc (length d)) p 0 hp (omega arith) (omega (arith, long)) in
      subst (λ r. Searched p 0 r)
        (ap (λ k. find_loop (suc (length d)) p tag (at k)) (around_0 (length fs) p hp)
          ∙ sym (ap (λ k. find_loop (suc (length d)) k tag (at p)) pos)
          ∙ sym (ap (λ l. find_loop (suc (length l)) (at p).pos tag (at p)) start))
        searched

-- Some field of the message is one that is looked for.
abbrev pub has_wanted : ℕ → List Field → Bool
has_wanted tag [] = false
has_wanted tag (f ∷ fs) = is_wanted tag f || has_wanted tag fs

pub has_wanted_here :
    (tag : ℕ) (fs behind : List Field) (j : ℕ)
    → j < length fs
    → is_wanted tag (get_or (descriptor fs behind) j last_field) ≡ true
    → has_wanted tag fs ≡ true
has_wanted_here tag [] behind j h e = absurd (omega arith)
has_wanted_here tag (f ∷ fs) behind zero h e = rw e
has_wanted_here tag (f ∷ fs) behind (suc j) h e =
    ground (arith, has_wanted_here tag fs behind j (omega arith) e)

has_wanted_nowhere :
    (tag : ℕ) (fs behind : List Field)
    → ((j : ℕ) → j < length fs → is_wanted tag (get_or (descriptor fs behind) j last_field) ≡ false)
    → has_wanted tag fs ≡ false
has_wanted_nowhere tag [] behind none_at = refl
has_wanted_nowhere tag (f ∷ fs) behind none_at =
    let first : is_wanted tag f ≡ false = none_at 0 (omega arith) in
    rw first (has_wanted_nowhere tag fs behind (λ j h. none_at (suc j) (omega arith)))

-- The search has stopped at a field that is wanted, or given the iterator at `p` back.
abbrev pub FindsAll : List Field → List Field → ℕ → ℕ → ℕ → FieldIter × Bool → Type 0
FindsAll fs behind dest tag p r =
    ((has_wanted tag fs ≡ true)
      × (j : ℕ) × (j < length fs)
      × (is_wanted tag (get_or (descriptor fs behind) j last_field) ≡ true)
      × (r ≡ (iter_at (descriptor fs behind) dest j, true)))
    ⊎ ((has_wanted tag fs ≡ false) × (r ≡ (iter_at (descriptor fs behind) dest p, false)))

-- From any field of a message on, `pb_field_iter_find` stops at a field that has the tag and is no
-- extension, if the message has one; else it says false, with the iterator as it was.
pub pb_field_iter_find_complete :
    (fs behind : List Field) (dest : ℕ) (all : All HasTag fs) (tag p : ℕ)
    → p < length fs
    → FindsAll fs behind dest tag p (pb_field_iter_find tag (iter_at (descriptor fs behind) dest p))
pb_field_iter_find_complete fs behind dest all tag p hp =
    elim (pb_field_iter_find-Searched fs behind dest all tag p hp) [
      | inl (j, lt, hit, e) ↦ inl (has_wanted_here tag fs behind j lt hit, j, lt, hit, e)
      | inr (e, misses) ↦ inr (
        has_wanted_nowhere tag fs behind λ j h.
            let (i, lt, same) = around_all (length fs) p j hp h in
            subst (λ k. is_wanted tag (get_or (descriptor fs behind) k last_field) ≡ false) same
              (misses i (omega arith) lt),
        e,
      )
    ]
