-- ===== src/Nanopb/Decode/Message/Complete.antt =====
-- The check for missing fields in `pb_decode_noinit` of pb_decode.c, behind any sequence of values of
-- required fields of unsigned types.
use social_timeline.Common.{ℕ, zero, suc, ◌≤◌, ◌<◌, ◌≡◌, refl, arith, ◌∙◌, ap, sym, ◌&&◌, ltb}
use social_timeline.Common.{
  Bool, true, false, inl, inr, none, Option, List, [], ◌∷◌, ◌++◌, All, length, ◌==◌, not,
  if◌then◌else◌, Bool-cases,
}
use social_timeline.Nanopb.Outcome.{Errmsg, missing_required_field, ok, Run}
use social_timeline.Nanopb.Field.{Field, FieldIter}
use social_timeline.Nanopb.Field.Iterate.{HasTag, descriptor, iter_at}
use social_timeline.Nanopb.Memory.{store}
use social_timeline.Nanopb.Heap.{Machine}
use social_timeline.Nanopb.Decode.State.{Decoding, DecoderProgram, refuse}
use social_timeline.Nanopb.Decode.Values.{decoding}
use social_timeline.Nanopb.Decode.Required.{mark_seen, all_seen}
use social_timeline.Nanopb.Decode.Required.Seen.{is_in, seen_fields, all_seen_iff}
use social_timeline.Nanopb.Decode.Message.{
  Progress, see_required, required_count, fixed_count_complete, check_complete, pb_decode_noinit,
}
use social_timeline.Nanopb.Decode.Message.Known.{see_required-iter}
use social_timeline.Nanopb.Decode.Message.Sequence.{
  Entry, Fits, entries_bytes, iter_of, stored, past, start, pb_decode_noinit_entries,
}
use social_timeline.Nanopb.Decode.Message.Count.{
  AllUnsigned, type_at, index_at, required_count-iter_at,
}

-- Whether the first `n` fields are all among the places.
unfoldable pub all_in : ℕ → List ℕ → Bool
all_in zero places = true
all_in (suc n) places = all_in n places && is_in n places

-- The places of the entries, in front of those before them, the last one first.
unfoldable pub places_of : List Entry → List ℕ → List ℕ
places_of [] before = before
places_of (e ∷ es) before = places_of es (e.place ∷ before)

all_in-is_in :
    (n : ℕ) (places : List ℕ) → all_in n places ≡ true → (i : ℕ) → i < n → is_in i places ≡ true
unfolding all_in
all_in-is_in zero places e i h = absurd (omega arith)
all_in-is_in (suc n) places e i h = elim (Bool-cases (i == n)) [
  | inl last ↦ let same : i ≡ n = ground arith in rw same (ground arith)
  | inr early ↦ all_in-is_in n places (ground arith) i (ground arith)
]

pub is_in-all_in :
    (n : ℕ) (places : List ℕ) → ((i : ℕ) → i < n → is_in i places ≡ true) → all_in n places ≡ true
unfolding all_in
is_in-all_in zero places each = refl
is_in-all_in (suc n) places each =
    rw (is_in-all_in n places (λ i h. each i (omega arith)), each n (omega arith)) refl

same_truth : (a b : Bool) → (a ≡ true → b ≡ true) → (b ≡ true → a ≡ true) → a ≡ b
same_truth true b f g = sym (f refl)
same_truth false true f g = g refl
same_truth false false f g = refl

all_seen-all_in :
    (n : ℕ) (places : List ℕ)
    → ((i : ℕ) → n ≤ i → is_in i places ≡ false)
    → all_seen n (seen_fields places) ≡ all_in n places
all_seen-all_in n places no_more =
    let (forth, back) = all_seen_iff n places no_more in
    same_truth (all_seen n (seen_fields places)) (all_in n places)
      (λ e. is_in-all_in n places (forth e)) (λ e. back (all_in-is_in n places e))

places_of-within :
    (fs behind : List Field) (es : List Entry) (before : List ℕ)
    → All (Fits fs behind) es
    → ((i : ℕ) → length fs ≤ i → is_in i before ≡ false)
    → (i : ℕ) → length fs ≤ i
    → is_in i (places_of es before) ≡ false
unfolding places_of is_in
places_of-within fs behind [] before fit within = within
places_of-within fs behind (e ∷ es) before (here, fit) within =
    places_of-within fs behind es (e.place ∷ before) fit λ i h.
      let apart : (i == e.place) ≡ false = let inside = here.0 in ground arith in
      rw apart (within i h)

module _ (fs behind : List Field) (dest : ℕ) (all : All HasTag fs)
    (unsigned : AllUnsigned fs behind) where
  abbrev at : ℕ → FieldIter
  at = iter_at (descriptor fs behind) dest

  module _ {S : Type 0} (program : DecoderProgram S) (depth : ℕ)
      (noinit : List Field → ℕ → Run (Decoding S) (Unit {0})) (few : length fs ≤ 64) where
    -- The locals when the fields at these places have been seen, with the iterator at one of the fields.
    abbrev HasSeen : List ℕ → Progress → Type 0
    HasSeen places p =
        (k : ℕ) × (k < length fs)
        × (p.iter ≡ at k)
        × (p.fields_seen ≡ seen_fields places)
        × (p.fixed_count_field ≡ none)

    see_required-marks :
        (p : Progress) (j : ℕ)
        → j < length fs
        → let q = see_required program depth noinit (record p { iter = at j }) in
          (q.fields_seen ≡ mark_seen j p.fields_seen) × (q.fixed_count_field ≡ p.fixed_count_field)
    unfolding see_required
    see_required-marks p j h =
        let early : ltb j 64 ≡ true = ground arith in
        rw
          (type_at fs behind dest all unsigned j h, index_at fs behind dest all unsigned j h, early)
          (refl, refl)

    see_required-HasSeen :
        (places : List ℕ) (p : Progress) (j : ℕ)
        → j < length fs
        → HasSeen places p
        → HasSeen (j ∷ places) (see_required program depth noinit (record p { iter = at j }))
    unfolding seen_fields
    see_required-HasSeen places p j h (k, _, _, seen, fixed) =
        let (marks, keeps) = see_required-marks p j h in
        (
          j,
          h,
          (see_required-iter program depth noinit (record p { iter = at j })).0,
          marks ∙ ap (mark_seen j) seen,
          keeps ∙ fixed,
        )

    past-HasSeen :
        (es : List Entry) (places : List ℕ) (p : Progress)
        → All (Fits fs behind) es
        → HasSeen places p
        → HasSeen (places_of es places) (past fs behind dest program depth noinit es p)
    unfolding past places_of
    past-HasSeen [] places p fit seen = seen
    past-HasSeen (e ∷ es) places p (here, fit) seen =
        past-HasSeen es (e.place ∷ places)
          (see_required program depth noinit (record p { iter = iter_of fs behind dest e })) fit
          (see_required-HasSeen places p e.place here.0 seen)

    check_complete-HasSeen :
        (places : List ℕ) (p : Progress) (d : Decoding S)
        → ((i : ℕ) → length fs ≤ i → is_in i places ≡ false)
        → HasSeen places p
        → check_complete program depth noinit p d
          ≡ (if all_in (length fs) places then ok tt d else refuse missing_required_field d)
    unfolding check_complete fixed_count_complete
    check_complete-HasSeen places p d within (k, h, iter, seen, fixed) =
        let count : required_count p.iter ≡ length fs =
          ap required_count iter ∙ required_count-iter_at fs behind dest all unsigned k h few in
        let whole : all_seen (length fs) p.fields_seen ≡ all_in (length fs) places =
          ap (all_seen (length fs)) seen ∙ all_seen-all_in (length fs) places within in
        rw (fixed, count, whole)
          (either (all_in (length fs) places) (refuse missing_required_field d) (ok tt d))
      where
        either : {A : Type 0} (b : Bool) (x y : A) → (if not b then x else y) ≡ (if b then y else x)
        either true x y = refl
        either false x y = refl

-- A message of up to 64 fields, which are all required and of unsigned types, is decoded from the values
-- of any sequence of its fields, in any order and with fields more than once. `pb_decode_noinit`
-- succeeds just if each field is among them, and otherwise says "missing required field", unless a
-- message is set already. Either way it has taken all the values, and each number is in the memory at
-- the address of its field, a later one over an earlier one. The fields have 1, 2, 4 or 8 bytes,
-- the numbers fit them, and no two have the same tag, which is below 2 ^ 29.
pub pb_decode_noinit_complete :
    {S : Type 0} (program : DecoderProgram S) (depth : ℕ) (fs behind : List Field) (dest : ℕ)
    (es : List Entry) (l : List ℕ) (err : Option Errmsg) (x : Machine)
    → All HasTag fs
    → AllUnsigned fs behind
    → 0 < length fs
    → length fs ≤ 64
    → All (Fits fs behind) es
    → let bytes = entries_bytes fs behind es in
      let m = store x.memory 4 (program.fixed_count_at depth) 0 in
      let d : Decoding S = decoding l 0 err (record x { memory = stored fs behind dest es m }) in
      pb_decode_noinit program
        (suc depth)
        (descriptor fs behind)
        dest
        (decoding (bytes ++ l) (length bytes) err x)
      ≡ (if all_in (length fs) (places_of es []) then ok tt d else refuse missing_required_field d)
unfolding seen_fields is_in
pb_decode_noinit_complete {S = S} program depth fs behind dest es l err x all unsigned some few
      fit =
    let noinit = pb_decode_noinit program depth in
    let m = store x.memory 4 (program.fixed_count_at depth) 0 in
    let d : Decoding S = decoding l 0 err (record x { memory = stored fs behind dest es m }) in
    let begin : Progress = start fs behind dest in
    pb_decode_noinit_entries program depth fs behind dest es l err x all some fit
    ∙ check_complete-HasSeen fs behind dest all unsigned program depth noinit few (places_of es [])
        (past fs behind dest program depth noinit es begin) d
        (places_of-within fs behind es [] fit (λ i h. refl))
        (past-HasSeen fs behind dest all unsigned program depth noinit few es [] begin fit
          (0, some, refl, refl, refl))
