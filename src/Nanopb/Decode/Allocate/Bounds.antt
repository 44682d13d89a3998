-- ===== src/Nanopb/Decode/Allocate/Bounds.antt =====
-- The size that `allocate_field` of pb_decode.c asks `pb_realloc` for.
use social_timeline.Common.{ℕ, suc, ◌-◌, ◌*◌, ◌/◌, ◌^◌, ◌≤◌, ◌<◌, ◌≡◌, arith, ◌∙◌, ap}
use social_timeline.Common.{
  true, false, ◌↔◌, ◌⊎◌, inl, inr, ◌||◌, ltb, leb, ◌==◌, if◌then◌else◌, u64, Bool-cases,
}
use native.Mathlib.Nat.{mul_comm, mul-le-mul, div-lt_iff_lt-mul}
use social_timeline.Nanopb.Outcome.{size_too_large}
use social_timeline.Nanopb.Memory.{load_pointer}
use social_timeline.Nanopb.Heap.{Placement, pb_realloc}
use social_timeline.Nanopb.Decode.State.{Decoding, refuse}
use social_timeline.Nanopb.Decode.Allocate.{keep_block, overflows, allocate_field}

small_product : (a d : ℕ) → a < 2 ^ 32 → d < 2 ^ 32 → a * d < 2 ^ 64
small_product a d ha hd =
    let bound : a * d ≤ (2 ^ 32 - 1) * (2 ^ 32 - 1) =
      mul-le-mul {n₂ = 2 ^ 32 - 1} {m₂ = 2 ^ 32 - 1} (omega arith) (omega arith) in
    omega (arith, bound)

-- Tests of statements that hold together.
ltb-leb : (a b c d : ℕ) → (a < b) ↔ (c < d) → ltb a b ≡ leb (suc c) d
ltb-leb a b c d (there, back) = elim (lt_or_ge a b) [
  | inl lt ↦ let after = there lt in ground arith
  | inr ge ↦ elim (lt_or_ge c d) [
    | inl lt ↦ let before = back lt in absurd (omega arith)
    | inr ge' ↦ ground arith
  ]
]
  where
    lt_or_ge : (a b : ℕ) → (a < b) ⊎ (b ≤ a)
    lt_or_ge a b = ground arith

-- The test for an overflow is exact.
overflows_exact :
    (data_size array_size : ℕ)
    → 0 < array_size
    → overflows data_size array_size ≡ leb (2 ^ 64) (array_size * data_size)
unfolding overflows
overflows_exact data_size array_size pos =
    elim (Bool-cases (leb (2 ^ 32) data_size || leb (2 ^ 32) array_size)) [
      | inl big ↦ rw big (
          ltb-leb ((2 ^ 64 - 1) / array_size) data_size (2 ^ 64 - 1) (data_size * array_size)
            (div-lt_iff_lt-mul pos)
          ∙ ap (leb (2 ^ 64)) (mul_comm data_size array_size))
      | inr small ↦ rw small (fits (small_product array_size data_size (right small) (left small)))
    ]
  where
    fits : array_size * data_size < 2 ^ 64 → false ≡ leb (2 ^ 64) (array_size * data_size)
    fits h = ground arith

    left : (leb (2 ^ 32) data_size || leb (2 ^ 32) array_size) ≡ false → data_size < 2 ^ 32
    left h = ground arith

    right : (leb (2 ^ 32) data_size || leb (2 ^ 32) array_size) ≡ false → array_size < 2 ^ 32
    right h = ground arith

-- For sizes that are not 0, `allocate_field` asks for `array_size * data_size` bytes if this is a
-- number of 64 bits, without a wrap, and otherwise refuses with "size too large".
pub allocate_field_exact :
    {S : Type 0} (place : Placement) (p_data data_size array_size : ℕ) (d : Decoding S)
    → 0 < data_size
    → 0 < array_size
    → allocate_field place p_data data_size array_size d ≡ (
        if ltb (array_size * data_size) (2 ^ 64)
        then keep_block p_data d (
            pb_realloc place
              (load_pointer d.machine.memory p_data)
              (array_size * data_size)
              d.machine)
        else refuse size_too_large d)
unfolding allocate_field
allocate_field_exact place p_data data_size array_size d pos pos' =
    let nonzero : ((data_size == 0) || (array_size == 0)) ≡ false = ground arith in
    let exact = overflows_exact data_size array_size pos' in
    elim (Bool-cases (ltb (array_size * data_size) (2 ^ 64))) [
      | inl fits ↦
          let no_overflow : overflows data_size array_size ≡ false = exact ∙ below fits in
          let same : u64 (array_size * data_size) ≡ array_size * data_size = ground arith in
          rw (nonzero, no_overflow, fits)
            (ap
              (λ (n : ℕ).
                keep_block p_data d
                  (pb_realloc place (load_pointer d.machine.memory p_data) n d.machine))
              same)
      | inr over ↦
          let overflow : overflows data_size array_size ≡ true = exact ∙ above over in
          rw (nonzero, overflow, over)
    ]
  where
    below :
        ltb (array_size * data_size) (2 ^ 64) ≡ true → leb (2 ^ 64) (array_size * data_size) ≡ false
    below h = ground arith

    above :
        ltb (array_size * data_size) (2 ^ 64) ≡ false → leb (2 ^ 64) (array_size * data_size) ≡ true
    above h = ground arith
