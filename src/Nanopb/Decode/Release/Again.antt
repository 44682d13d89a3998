-- ===== src/Nanopb/Decode/Release/Again.antt =====
-- What `pb_release_single_field` of pb_decode.c leaves of a pointer field: nothing that a second call
-- would free.
use social_timeline.Common.{ℕ, suc, ◌+◌, ◌≤◌, ◌≡◌, ◌≢◌, ◌⊎◌, refl, arith, ◌∙◌, ap}
use social_timeline.Common.{
  true, false, List, inl, inr, if-cases, Option, none, some, ◌&&◌, ◌||◌, ◌==◌, not, if◌then◌else◌,
  Bool-cases,
}
use social_timeline.Nanopb.Field.{
  Field, FieldIter, current, ltype, htype, atype, ltype_extension, ltype_string, ltype_bytes,
  ltype_submessage, htype_oneof, htype_repeated, atype_pointer,
}
use social_timeline.Nanopb.Memory.{load, load_pointer, load_size}
use social_timeline.Nanopb.Memory.Store.{load-store_apart, load-unsigned}
use social_timeline.Nanopb.Heap.{Machine, block_at, free_block, pb_free}
use social_timeline.Nanopb.Decode.Release.{
  put, first_item, release_entries, release_array, clear_count, release_main, release_pointer,
  release_inside, release_items, release_message, item_count, release_one, pb_release_single_field,
}

-- The pointer and the count of a field do not overlap.
abbrev pub Apart : FieldIter → Type 0
Apart it = (it.p_data + 8 ≤ it.p_size) ⊎ (it.p_size + 4 ≤ it.p_data)

-- The pointer is null, and an array has no entries.
pub data Released (it : FieldIter) (x : Machine) : Type 0 where
  released :
      load_pointer x.memory it.p_data ≡ 0
      → (htype (current it).type ≡ htype_repeated → load_size x.memory it.p_size ≡ 0)
      → Released it x

-- The same blocks are allocated.
abbrev pub SameBlocks : Machine → Machine → Type 0
SameBlocks x y = (x.blocks ≡ y.blocks) × (x.misused ≡ y.misused)

free_block-memory : (p : ℕ) (x : Machine) (o : Option ℕ) → (free_block p x o).memory ≡ x.memory
unfolding free_block
free_block-memory p x none = refl
free_block-memory p x (some size) = refl

pb_free-memory : (p : ℕ) (x : Machine) → (pb_free p x).memory ≡ x.memory
unfolding pb_free
pb_free-memory p x =
    if-cases (λ y. y.memory ≡ x.memory) (p == 0) x (free_block p x (block_at x.blocks p)) refl
      (free_block-memory p x (block_at x.blocks p))

pb_free-null : (p : ℕ) (x : Machine) → p ≡ 0 → pb_free p x ≡ x
unfolding pb_free
pb_free-null p x null = let is_null : (p == 0) ≡ true = ground arith in rw is_null

release_main-pointer :
    (it : FieldIter) (x : Machine) → load_pointer (release_main it x).memory it.p_data ≡ 0
unfolding release_main put
release_main-pointer it x =
    load-unsigned (pb_free (load_pointer x.memory it.p_data) x).memory 8 it.p_data 0 (omega arith)

release_main-count :
    (it : FieldIter) (x : Machine)
    → Apart it
    → load_size (release_main it x).memory it.p_size ≡ load_size x.memory it.p_size
unfolding release_main put
release_main-count it x apart =
    load-store_apart (pb_free (load_pointer x.memory it.p_data) x).memory 8 it.p_data 0 4 it.p_size
      (swap apart)
    ∙ ap (λ m. load m 4 it.p_size) (pb_free-memory (load_pointer x.memory it.p_data) x)
  where
    swap : Apart it → (it.p_size + 4 ≤ it.p_data) ⊎ (it.p_data + 8 ≤ it.p_size)
    swap (inl h) = inr h
    swap (inr h) = inl h

clear_count-count :
    (it : FieldIter) (x : Machine)
    → htype (current it).type ≡ htype_repeated
    → load_size (clear_count it x).memory it.p_size ≡ 0
unfolding clear_count put
clear_count-count it x repeated =
    let is_repeated : (htype (current it).type == htype_repeated) ≡ true = ground arith in
    rw is_repeated (load-unsigned x.memory 4 it.p_size 0 (omega arith))

clear_count-pointer :
    (it : FieldIter) (x : Machine)
    → Apart it
    → load_pointer (clear_count it x).memory it.p_data ≡ load_pointer x.memory it.p_data
unfolding clear_count put
clear_count-pointer it x apart =
    if-cases (λ y. load_pointer y.memory it.p_data ≡ load_pointer x.memory it.p_data)
      (htype (current it).type == htype_repeated) (put 4 it.p_size 0 x) x
      (load-store_apart x.memory 4 it.p_size 0 8 it.p_data apart) refl

clear_count-blocks : (it : FieldIter) (x : Machine) → SameBlocks (clear_count it x) x
unfolding clear_count put
clear_count-blocks it x =
    if-cases (λ y. SameBlocks y x) (htype (current it).type == htype_repeated) (put 4 it.p_size 0 x)
      x (refl, refl) (refl, refl)

release_main-blocks :
    (it : FieldIter) (x : Machine)
    → load_pointer x.memory it.p_data ≡ 0
    → SameBlocks (release_main it x) x
unfolding release_main put
release_main-blocks it x null =
    let free = pb_free-null (load_pointer x.memory it.p_data) x null in
    (ap (λ y. y.blocks) free, ap (λ y. y.misused) free)

release_array-empty :
    (it : FieldIter) (x : Machine)
    → (htype (current it).type ≡ htype_repeated → load_size x.memory it.p_size ≡ 0)
    → release_array it x ≡ x
unfolding release_array release_entries
release_array-empty it x empty = elim (Bool-cases (htype (current it).type == htype_repeated)) [
  | inl is_repeated ↦
      let none_left =
        empty (let e : htype (current it).type ≡ htype_repeated = ground arith in e) in
      rw (is_repeated, none_left)
        (if-cases (λ y. y ≡ x)
          ((ltype (current it).type == ltype_string) || (ltype (current it).type == ltype_bytes)) x
          x refl refl)
  | inr single ↦ rw single
]

release_pointer-Released :
    (it : FieldIter) (x : Machine)
    → atype (current it).type ≡ atype_pointer
    → Apart it
    → Released it (release_pointer it x)
unfolding release_pointer
release_pointer-Released it x pointer apart =
    let is_pointer : (atype (current it).type == atype_pointer) ≡ true = ground arith in
    let y = clear_count it (release_array it x) in
    rw is_pointer (
      released (release_main-pointer it y) (λ repeated.
        release_main-count it y apart ∙ clear_count-count it (release_array it x) repeated))

release_pointer-again :
    (it : FieldIter) (x : Machine)
    → atype (current it).type ≡ atype_pointer
    → Apart it
    → Released it x
    → SameBlocks (release_pointer it x) x
unfolding release_pointer
release_pointer-again it x pointer apart (released null empty) =
    let is_pointer : (atype (current it).type == atype_pointer) ≡ true = ground arith in
    let (blocks, misused) =
      release_main-blocks it (clear_count it x) (clear_count-pointer it x apart ∙ null) in
    let (blocks', misused') = clear_count-blocks it x in
    rw (is_pointer, release_array-empty it x empty) (blocks ∙ blocks', misused ∙ misused')

-- A null pointer holds no submessage.
release_inside-null :
    (descriptors : ℕ → List Field) (release_field : FieldIter → Machine → Machine) (links : ℕ)
    (it : FieldIter) (x : Machine)
    → atype (current it).type ≡ atype_pointer
    → ltype (current it).type ≢ ltype_extension
    → load_pointer x.memory it.p_data ≡ 0
    → release_inside descriptors release_field links it x ≡ x
unfolding release_inside first_item
release_inside-null descriptors release_field links it x pointer no_extension null =
    let is_pointer : (atype (current it).type == atype_pointer) ≡ true = ground arith in
    let not_extension : (ltype (current it).type == ltype_extension) ≡ false = ground arith in
    rw (not_extension, is_pointer, null)
      (elim (ltype (current it).type == ltype_submessage)
        as (λ b.
          (if b && false
            then release_items
                (release_message descriptors release_field (descriptors (current it).ptr))
                (current it).data_size (item_count it x) 0 x
            else x)
          ≡ x) [ true ↦ refl | false ↦ refl ])

release_one-again :
    (descriptors : ℕ → List Field) (f g : FieldIter → Machine → Machine) (links links' : ℕ)
    (it : FieldIter) (x : Machine)
    → atype (current it).type ≡ atype_pointer
    → ltype (current it).type ≢ ltype_extension
    → Apart it
    → SameBlocks
        (release_one descriptors g links' it (release_one descriptors f links it x))
        (release_one descriptors f links it x)
unfolding release_one
release_one-again descriptors f g links links' it x pointer no_extension apart =
    let other = (htype (current it).type == htype_oneof) in
    let y = release_pointer it (release_inside descriptors f links it x) in
    let settled =
      release_pointer-Released it (release_inside descriptors f links it x) pointer apart in
    elim (Bool-cases (other && not (load_size x.memory it.p_size == (current it).tag))) [
      | inl absent ↦ rw (absent, absent) (refl, refl)
      | inr here ↦ rw here (
          if-cases (λ z. SameBlocks z y)
            (other && not (load_size y.memory it.p_size == (current it).tag)) y
            (release_pointer it (release_inside descriptors g links' it y)) (refl, refl)
            (rw
              (release_inside-null descriptors g links' it y pointer no_extension
                (pointer_of settled))
              (release_pointer-again it y pointer apart settled)))
    ]
  where
    pointer_of : {y : Machine} → Released it y → load_pointer y.memory it.p_data ≡ 0
    pointer_of (released null empty) = null

-- A second `pb_release_single_field` on a pointer field frees nothing, and does nothing that C does not
-- allow, if the field is no extension and its pointer and count do not overlap.
pub pb_release_single_field_again :
    (descriptors : ℕ → List Field) (depth depth' : ℕ) (it : FieldIter) (x : Machine)
    → atype (current it).type ≡ atype_pointer
    → ltype (current it).type ≢ ltype_extension
    → Apart it
    → SameBlocks
        (pb_release_single_field descriptors
          (suc depth')
          it
          (pb_release_single_field descriptors (suc depth) it x))
        (pb_release_single_field descriptors (suc depth) it x)
unfolding pb_release_single_field
pb_release_single_field_again descriptors depth depth' it x pointer no_extension apart =
    release_one-again descriptors (pb_release_single_field descriptors depth)
      (pb_release_single_field descriptors depth') depth depth' it x pointer no_extension apart

-- `pb_release_single_field` leaves a null pointer and a count of 0 in a pointer field that it does not
-- pass by as an absent member of a oneof, if the pointer and the count do not overlap.
pub pb_release_single_field_clears :
    (descriptors : ℕ → List Field) (depth : ℕ) (it : FieldIter) (x : Machine)
    → atype (current it).type ≡ atype_pointer
    → (htype (current it).type ≡ htype_oneof → load_size x.memory it.p_size ≡ (current it).tag)
    → Apart it
    → Released it (pb_release_single_field descriptors (suc depth) it x)
unfolding pb_release_single_field release_one
pb_release_single_field_clears descriptors depth it x pointer chosen apart =
    let here : ((htype (current it).type == htype_oneof)
          && not (load_size x.memory it.p_size == (current it).tag))
        ≡ false =
      elim (Bool-cases (htype (current it).type == htype_oneof)) [
        | inl oneof ↦
            let same = chosen (let e : htype (current it).type ≡ htype_oneof = ground arith in e) in
            ground arith
        | inr other ↦ rw other
      ] in
    rw here (
      release_pointer-Released it
        (release_inside descriptors (pb_release_single_field descriptors depth) depth it x) pointer
        apart)
