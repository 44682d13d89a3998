-- ===== src/Nanopb/Decode/Sizes.antt =====
-- The sizes of the numbers that pb_decode.c stores, and their patterns of 64 bits.
use social_timeline.Common.{ℕ, ◌+◌, ◌*◌, ◌/◌, ◌%◌, ◌^◌, ◌<◌, ◌≡◌, refl, arith, ◌∙◌, ap, sym}
use social_timeline.Common.{true}
use social_timeline.Nanopb.Memory.{Memory, load, store, sign_extend}
use social_timeline.Nanopb.Memory.Store.{load-store}
use social_timeline.Nanopb.Encode.Scalars.{integer_size}
use social_timeline.Nanopb.Decode.Scalars.{as_signed}

-- The sizes that an integer may have.
pub data Size : ℕ → Type 0 where
  one_byte : Size 1
  two_bytes : Size 2
  four_bytes : Size 4
  eight_bytes : Size 8

pub as_signed-sign_extend :
    (size v : ℕ)
    → Size size
    → v < 256 ^ size
    → as_signed size (sign_extend size v) ≡ sign_extend size v
unfolding as_signed sign_extend
as_signed-sign_extend _ v one_byte h = ground arith
as_signed-sign_extend _ v two_bytes h = ground arith
as_signed-sign_extend _ v four_bytes h = ground arith
as_signed-sign_extend _ v eight_bytes h = refl

pub low_part : (size v : ℕ) → Size size → v < 256 ^ size → sign_extend size v % 2 ^ (8 * size) ≡ v
unfolding sign_extend
low_part _ v one_byte h = ground arith
low_part _ v two_bytes h = ground arith
low_part _ v four_bytes h = ground arith
low_part _ v eight_bytes h = ground arith

pub sign_extend-lt : (size v : ℕ) → Size size → v < 256 ^ size → sign_extend size v < 2 ^ 64
unfolding sign_extend
sign_extend-lt _ v one_byte h = ground arith
sign_extend-lt _ v two_bytes h = ground arith
sign_extend-lt _ v four_bytes h = ground arith
sign_extend-lt _ v eight_bytes h = ground arith

-- The number, and what its sign has put above it.
sign_parts :
    (size v : ℕ)
    → Size size
    → v < 256 ^ size
    → v + sign_extend size v / 256 ^ size * 256 ^ size ≡ sign_extend size v
sign_parts _ v one_byte h = omega (arith, low_part 1 v one_byte h)
sign_parts _ v two_bytes h = omega (arith, low_part 2 v two_bytes h)
sign_parts _ v four_bytes h = omega (arith, low_part 4 v four_bytes h)
sign_parts _ v eight_bytes h = omega (arith, low_part 8 v eight_bytes h)

pub load-sign_extend :
    (m : Memory) (size dest v : ℕ)
    → Size size
    → v < 256 ^ size
    → load (store m size dest (sign_extend size v)) size dest ≡ v
load-sign_extend m size dest v s h =
    ap (λ (w : ℕ). load (store m size dest w) size dest) (sym (sign_parts size v s h))
    ∙ load-store m size dest v (sign_extend size v / 256 ^ size) h

pub Size-integer_size : (size : ℕ) → Size size → integer_size size ≡ true
Size-integer_size _ one_byte = refl
Size-integer_size _ two_bytes = refl
Size-integer_size _ four_bytes = refl
Size-integer_size _ eight_bytes = refl
