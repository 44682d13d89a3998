-- ===== src/Nanopb/Decode/Message/Layout.antt =====
-- A structure whose fields are all required and of unsigned types: where pb_common.c finds its fields,
-- and what the memory holds when pb_decode.c has stored a number in each of them.
use social_timeline.Common.{
  ℕ, zero, suc, ◌+◌, ◌^◌, ◌≤◌, ◌<◌, ◌≡◌, refl, arith, ◌∙◌, ap, ◌⊎◌, inl, inr, ◌==◌,
}
use social_timeline.Common.{true, List, [], ◌∷◌, All, length, Bool-cases}
use social_timeline.Nanopb.Field.{
  Field, FieldIter, ltype_uvarint, pb_field_iter_begin, step_over, field_extent,
}
use social_timeline.Nanopb.Field.Iterate.{
  HasTag, descriptor, iter_at, iter_at-pos, iter_at-next, get_or-HasTag, current-iter_at,
}
use social_timeline.Nanopb.Memory.{Memory, load}
use social_timeline.Nanopb.Memory.Store.{load-unsigned, load-store_apart}
use social_timeline.Nanopb.Encode.Values.{load-lt}
use social_timeline.Nanopb.Decode.Sizes.{Size}
use social_timeline.Nanopb.Decode.Required.Seen.{is_in}
use social_timeline.Nanopb.Decode.Message.Known.{IsOnly}
use social_timeline.Nanopb.Decode.Message.Sequence.{Entry, field_at, Fits, stored}
use social_timeline.Nanopb.Decode.Message.Complete.{places_of}

-- The field at `j` is a required one of an unsigned type, with a tag of its own.
abbrev pub IsUnsigned : List Field → List Field → ℕ → Type 0
IsUnsigned fs behind j =
    let field = field_at fs behind j in
    IsOnly field.tag fs behind j
    × (field.type ≡ ltype_uvarint)
    × Size field.data_size
    × (field.tag < 2 ^ 29)

-- Where the field at `j` lies in the structure at `base`.
abbrev pub address : List Field → List Field → ℕ → ℕ → ℕ
address fs behind base j = (iter_at (descriptor fs behind) base j).p_data

-- The entries for `count` fields from `k` on, with the numbers that the structure at `base` holds.
unfoldable pub held : List Field → List Field → Memory → ℕ → ℕ → ℕ → List Entry
held fs behind m base zero k = []
held fs behind m base (suc count) k =
    let number = load m (field_at fs behind k).data_size (address fs behind base k) in
    let entry : Entry = record { place = k; number = number } in
    entry ∷ held fs behind m base count (suc k)

pub is_in-places_of :
    (fs behind : List Field) (m : Memory) (base count k : ℕ) (before : List ℕ) (i : ℕ)
    → (is_in i before ≡ true) ⊎ ((k ≤ i) × (i < k + count))
    → is_in i (places_of (held fs behind m base count k) before) ≡ true
unfolding held places_of is_in
is_in-places_of fs behind m base zero k before i (inl old) = old
is_in-places_of fs behind m base zero k before i (inr (low, high)) = absurd (omega arith)
is_in-places_of fs behind m base (suc count) k before i (inl old) =
    is_in-places_of fs behind m base count (suc k) (k ∷ before) i (inl (ground arith))
is_in-places_of fs behind m base (suc count) k before i (inr (low, high)) =
    elim (Bool-cases (i == k)) [
      | inl here ↦
          is_in-places_of fs behind m base count (suc k) (k ∷ before) i (inl (rw here refl))
      | inr later ↦
          is_in-places_of fs behind m base count (suc k) (k ∷ before) i
            (inr (ground arith, omega arith))
    ]

module _ (fs behind : List Field) (all : All HasTag fs)
    (simple : (j : ℕ) → j < length fs → IsUnsigned fs behind j) where
  pub held-Fits :
      (m : Memory) (base count k : ℕ)
      → ((a : ℕ) → m a < 256)
      → k + count ≤ length fs
      → All (Fits fs behind) (held fs behind m base count k)
  unfolding held
  held-Fits m base zero k is_memory h = tt
  held-Fits m base (suc count) k is_memory h =
      let (only, typ, size, small) = simple k (omega arith) in
      (
        (omega arith, only, typ, size, load-lt m is_memory _ (address fs behind base k), small),
        held-Fits m base count (suc k) is_memory (omega arith),
      )

  step_over-address :
      (prev : Field) (it : FieldIter)
      → prev.type ≡ ltype_uvarint
      → it.p_data + prev.data_size ≤ (step_over prev it).p_data
  unfolding step_over field_extent
  step_over-address prev it typ = rw typ (omega arith)

  next_address :
      (base j : ℕ)
      → suc j < length fs
      → address fs behind base j + (field_at fs behind j).data_size ≤ address fs behind base (suc j)
  next_address base j h =
      let at = iter_at (descriptor fs behind) base in
      let (start, pos, _) = iter_at-pos fs behind base all j (omega arith) in
      let here = current-iter_at fs behind base all j (omega arith) in
      let moved =
        iter_at-next (descriptor fs behind) base j
          (rw here (get_or-HasTag fs behind j all (omega arith)))
          (rw (start, pos) (get_or-HasTag fs behind (suc j) all h)) in
      let same = ap (λ it. it.p_data) moved ∙ ap (λ f. (step_over f (at j)).p_data) here in
      let (_, typ, _, _) = simple j (omega arith) in
      omega (arith, same, step_over-address (field_at fs behind j) (at j) typ)

  -- A field lies behind those before it.
  address-apart :
      (base i j : ℕ)
      → i < j
      → j < length fs
      → address fs behind base i + (field_at fs behind i).data_size ≤ address fs behind base j
  address-apart base i zero h inside = absurd (omega arith)
  address-apart base i (suc j) h inside = elim (Bool-cases (i == j)) [
    | inl last ↦ let e : i ≡ j = ground arith in rw e (next_address base j inside)
    | inr early ↦
        let before = address-apart base i j (ground arith) (omega arith) in
        omega (arith, before, next_address base j inside)
  ]

  pub address-above : (base j : ℕ) → j < length fs → base ≤ address fs behind base j
  unfolding iter_at pb_field_iter_begin
  address-above base zero h = omega arith
  address-above base (suc j) h =
      omega (arith, address-above base j (omega arith), next_address base j h)

  module _ (m : Memory) (src dest : ℕ) where
    stored_before :
        (count k j : ℕ) (m' : Memory)
        → k + count ≤ length fs
        → j < k
        → load
            (stored fs behind dest (held fs behind m src count k) m')
            (field_at fs behind j).data_size
            (address fs behind dest j)
          ≡ load m' (field_at fs behind j).data_size (address fs behind dest j)
    unfolding held stored
    stored_before zero k j m' h early = refl
    stored_before (suc count) k j m' h early =
        stored_before count (suc k) j _ (omega arith) (omega arith)
        ∙ load-store_apart m' (field_at fs behind k).data_size (address fs behind dest k) _
            (field_at fs behind j).data_size (address fs behind dest j)
            (inl (address-apart dest j k early (omega arith)))

    -- Each field then holds the number that it holds in the other structure.
    pub stored-held :
        (count k j : ℕ) (m' : Memory)
        → ((a : ℕ) → m a < 256)
        → k + count ≤ length fs
        → k ≤ j
        → j < k + count
        → load
            (stored fs behind dest (held fs behind m src count k) m')
            (field_at fs behind j).data_size
            (address fs behind dest j)
          ≡ load m (field_at fs behind j).data_size (address fs behind src j)
    unfolding held stored
    stored-held zero k j m' is_memory h low high = absurd (omega arith)
    stored-held (suc count) k j m' is_memory h low high = elim (Bool-cases (j == k)) [
      | inl here ↦
          let e : j ≡ k = ground arith in
          rw e (
            stored_before count (suc k) k _ (omega arith) (omega arith)
            ∙ load-unsigned m' (field_at fs behind k).data_size (address fs behind dest k) _
                (load-lt m is_memory _ (address fs behind src k)))
      | inr later ↦
          stored-held count (suc k) j _ is_memory (omega arith) (ground arith) (omega arith)
    ]
