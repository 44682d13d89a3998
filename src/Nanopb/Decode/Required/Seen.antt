-- ===== src/Nanopb/Decode/Required/Seen.antt =====
-- The check on `fields_seen` in `pb_decode_noinit` of pb_decode.c against a list of the required fields
-- that have been decoded.
use social_timeline.Common.{
  ℕ, zero, suc, ◌+◌, ◌-◌, ◌*◌, ◌/◌, ◌%◌, ◌^◌, ◌≤◌, ◌<◌, ◌≡◌, refl, arith, ◌∙◌, ap, sym,
}
use social_timeline.Common.{
  Bool, true, false, ◌||◌, ◌&&◌, ◌↔◌, ◌⊎◌, List, [], ◌∷◌, inl, inr, bit_and, bit_or, ◌==◌,
  Bool-cases, u32, ◌<<<◌, ◌>>>◌,
}
use social_timeline.Common.Bits.{bit_and_mask}
use social_timeline.Common.BitSets.{bits, bits_cong, bits_none, bit_or-bits, bits_all, all_bits}
use native.Mathlib.Nat.{pow-suc, one-le-pow, pow-le-pow_right, div-div-eq-div-mul}
use social_timeline.Nanopb.Decode.Required.{
  FieldsSeen, none_seen, allbits, mark_seen, whole_words, all_seen,
}

-- Whether a field is among those that have been decoded.
unfoldable pub is_in : ℕ → List ℕ → Bool
is_in i [] = false
is_in i (j ∷ decoded) = (i == j) || is_in i decoded

-- `fields_seen` when the fields of these indices have been decoded.
unfoldable pub seen_fields : List ℕ → FieldsSeen
seen_fields [] = none_seen
seen_fields (j ∷ decoded) = mark_seen j (seen_fields decoded)

pow-lt-word : (k : ℕ) → k < 32 → 2 ^ k < 2 ^ 32
pow-lt-word k h = omega (
  arith,
  pow-le-pow_right {n = 2} (omega arith) {i = suc k} {j = 32} h,
  pow-suc 2 k,
  one-le-pow k 2 (omega arith),
)

seen_fields-bits :
    (decoded : List ℕ) (w : ℕ) → seen_fields decoded w ≡ bits 32 (λ i. is_in (32 * w + i) decoded)
unfolding seen_fields is_in mark_seen
seen_fields-bits [] w = sym (bits_none 32 (λ i. false) (λ i h. refl))
seen_fields-bits (j ∷ decoded) w =
    let low : bit_and j 31 ≡ j % 32 = bit_and_mask 5 j in
    let power : u32 (1 <<< bit_and j 31) ≡ 2 ^ (j % 32) =
      rw low (omega (arith, pow-lt-word (j % 32) (omega arith))) in
    let before : ℕ → Bool = λ i. is_in (32 * w + i) decoded in
    elim (Bool-cases (w == j >>> 5)) [
      | inl here ↦ rw here (
          ap (λ (t : ℕ). bit_or (seen_fields decoded w) t) power
          ∙ ap (λ (t : ℕ). bit_or t (2 ^ (j % 32))) (seen_fields-bits decoded w)
          ∙ bit_or-bits 32 (j % 32) before (omega arith)
          ∙ bits_cong 32 (λ i. (i == j % 32) || before i) (λ i. (32 * w + i == j) || before i)
              λ i h. ap (λ b. b || before i) (same i h here))
      | inr elsewhere ↦ rw elsewhere (
          seen_fields-bits decoded w
          ∙ bits_cong 32 before (λ i. (32 * w + i == j) || before i)
              λ i h. ap (λ b. b || before i) (apart i h elsewhere))
    ]
  where
    same : (i : ℕ) → i < 32 → (w == j >>> 5) ≡ true → (i == j % 32) ≡ (32 * w + i == j)
    same i h here = ground arith

    apart : (i : ℕ) → i < 32 → (w == j >>> 5) ≡ false → false ≡ (32 * w + i == j)
    apart i h elsewhere = ground arith

-- A word whose lowest `m` bits are 1, and no others.
word_all :
    (w m : ℕ) (decoded : List ℕ)
    → m ≤ 32
    → ((i : ℕ) → 32 * w ≤ i → i < 32 * w + m → is_in i decoded ≡ true)
    → ((i : ℕ) → 32 * w + m ≤ i → i < 32 * w + 32 → is_in i decoded ≡ false)
    → seen_fields decoded w ≡ 2 ^ m - 1
word_all w m decoded h all none =
    seen_fields-bits decoded w
    ∙ bits_all 32 m (λ i. is_in (32 * w + i) decoded) h
        (λ i h. all (32 * w + i) (omega arith) (omega arith))
        (λ i h h'. none (32 * w + i) (omega arith) (omega arith))

all_word :
    (w m i : ℕ) (decoded : List ℕ)
    → m ≤ 32
    → seen_fields decoded w ≡ 2 ^ m - 1
    → 32 * w ≤ i
    → i < 32 * w + m
    → is_in i decoded ≡ true
all_word w m i decoded h e low high =
    let index : 32 * w + (i - 32 * w) ≡ i = omega arith in
    ap (λ (t : ℕ). is_in t decoded) (sym index)
    ∙ all_bits 32 m (λ i. is_in (32 * w + i) decoded) h (sym (seen_fields-bits decoded w) ∙ e)
        (i - 32 * w) (omega arith)

both : (a b : Bool) → (a && b) ≡ true → (a ≡ true) × (b ≡ true)
both true b e = (refl, e)
both false b e = (e, absurd (ground arith))

lt_or_ge : (a b : ℕ) → (a < b) ⊎ (b ≤ a)
lt_or_ge a b = ground arith

whole_words-all :
    (n : ℕ) (decoded : List ℕ)
    → whole_words n (seen_fields decoded) ≡ true
    → (i : ℕ) → i < 32 * n
    → is_in i decoded ≡ true
unfolding whole_words
whole_words-all zero decoded e i h = absurd (omega arith)
whole_words-all (suc n) decoded e i h =
    let (before, here) =
      both (whole_words n (seen_fields decoded)) (seen_fields decoded n == allbits) e in
    let word : seen_fields decoded n ≡ 2 ^ 32 - 1 = ground arith in
    elim (lt_or_ge i (32 * n)) [
      | inl low ↦ whole_words-all n decoded before i low
      | inr high ↦ all_word n 32 i decoded (omega arith) word high (omega arith)
    ]

all-whole_words :
    (n : ℕ) (decoded : List ℕ)
    → ((i : ℕ) → i < 32 * n → is_in i decoded ≡ true)
    → whole_words n (seen_fields decoded) ≡ true
unfolding whole_words
all-whole_words zero decoded all = refl
all-whole_words (suc n) decoded all =
    let word : seen_fields decoded n ≡ 2 ^ 32 - 1 =
      word_all n 32 decoded (omega arith) (λ i _ h. all i (omega arith))
        (λ i low high. absurd (omega arith)) in
    let full : (seen_fields decoded n == allbits) ≡ true = ground arith in
    rw (all-whole_words n decoded (λ i h. all i (omega arith)), full) refl

-- The mask for the remaining bits.
shifted : (k : ℕ) → k ≤ 32 → allbits / 2 ^ k ≡ 2 ^ (32 - k) - 1
shifted zero h = refl
shifted (suc k) h =
    let power : 2 ^ (32 - k) ≡ 2 ^ (32 - suc k) * 2 =
      ap (λ (t : ℕ). 2 ^ t) (omega arith) ∙ pow-suc 2 (32 - suc k) in
    ap (λ (t : ℕ). allbits / t) (pow-suc 2 k)
    ∙ sym (div-div-eq-div-mul allbits (2 ^ k) 2)
    ∙ omega (arith, shifted k (omega arith), power)

mask_lem : (r : ℕ) → r ≤ 32 → allbits >>> (32 - r) ≡ 2 ^ r - 1
mask_lem r h = shifted (32 - r) (omega arith) ∙ ap (λ (t : ℕ). 2 ^ t - 1) (omega arith)

-- The test of the remaining bits.
remaining_lem :
    (count x : ℕ)
    → ((bit_and count 31 == 0) || (x == allbits >>> (32 - bit_and count 31)))
      ≡ ((count % 32 == 0) || (x == 2 ^ (count % 32) - 1))
remaining_lem count x =
    let low : bit_and count 31 ≡ count % 32 = bit_and_mask 5 count in
    rw (low, mask_lem (count % 32) (omega arith)) refl

all_seen-all :
    (count : ℕ) (decoded : List ℕ)
    → all_seen count (seen_fields decoded) ≡ true
    → (i : ℕ) → i < count
    → is_in i decoded ≡ true
unfolding all_seen
all_seen-all count decoded e i h =
    let x = seen_fields decoded (count / 32) in
    let (whole, rest) = both (whole_words (count >>> 5) (seen_fields decoded)) _ e in
    elim (last_word (count % 32) x (sym (remaining_lem count x) ∙ rest)) [
      | inl aligned ↦ whole_words-all (count / 32) decoded whole i (omega arith)
      | inr word ↦ elim (lt_or_ge i (32 * (count / 32))) [
        | inl early ↦ whole_words-all (count / 32) decoded whole i early
        | inr late ↦
            all_word (count / 32) (count % 32) i decoded (omega arith) word late (omega arith)
      ]
    ]
  where
    last_word : (r x : ℕ) → ((r == 0) || (x == 2 ^ r - 1)) ≡ true → (r ≡ 0) ⊎ (x ≡ 2 ^ r - 1)
    last_word r x e = ground arith

all-all_seen :
    (count : ℕ) (decoded : List ℕ)
    → ((i : ℕ) → count ≤ i → is_in i decoded ≡ false)
    → ((i : ℕ) → i < count → is_in i decoded ≡ true)
    → all_seen count (seen_fields decoded) ≡ true
unfolding all_seen
all-all_seen count decoded none all =
    let x = seen_fields decoded (count / 32) in
    let word : x ≡ 2 ^ (count % 32) - 1 =
      word_all (count / 32) (count % 32) decoded (omega arith) (λ i _ h. all i (omega arith))
        (λ i h _. none i (omega arith)) in
    rw (all-whole_words (count >>> 5) decoded (λ i h. all i (omega arith)))
      (remaining_lem count x ∙ last (count % 32) x word)
  where
    last : (r x : ℕ) → x ≡ 2 ^ r - 1 → ((r == 0) || (x == 2 ^ r - 1)) ≡ true
    last r x e = ground arith

-- When all the fields decoded are among the first `count` required ones, the check of `pb_decode_noinit`
-- on the words of `fields_seen` succeeds just if each of these `count` fields has been decoded.
pub all_seen_iff :
    (count : ℕ) (decoded : List ℕ)
    → ((i : ℕ) → count ≤ i → is_in i decoded ≡ false)
    → (all_seen count (seen_fields decoded) ≡ true) ↔ ((i : ℕ) → i < count → is_in i decoded ≡ true)
all_seen_iff count decoded none = (all_seen-all count decoded, all-all_seen count decoded none)
