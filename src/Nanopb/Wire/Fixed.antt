-- ===== src/Nanopb/Wire/Fixed.antt =====
-- The values of a fixed width (`pb_encode_fixed32`, `pb_decode_fixed32` and their like for 64 bits), read
-- back from their bytes.
use social_timeline.Common.{ℕ, ◌+◌, ◌-◌, ◌*◌, ◌/◌, ◌%◌, ◌^◌, ◌≤◌, ◌<◌, ◌≡◌, arith, ◌∙◌, ap}
use social_timeline.Common.{Option, List, [], ◌∷◌, ◌++◌, u8, u32, u64, bit_and}
use social_timeline.Common.Bits.{bit_and_mask, bit_or_disjoint}
use social_timeline.Nanopb.Outcome.{Errmsg, ok, bind}
use social_timeline.Nanopb.Istream.{pb_read}
use social_timeline.Nanopb.Istream.Reads.{reading, pb_read_next}
use social_timeline.Nanopb.Wire.{
  fixed32_bytes, fixed64_bytes, fixed32_value, fixed64_value, pb_decode_fixed32, pb_decode_fixed64,
}

fixed32_value_sum :
    (a b c d : ℕ)
    → a < 256
    → b < 256
    → c < 256
    → d < 256
    → fixed32_value (a ∷ b ∷ c ∷ d ∷ []) ≡ a + b * 2 ^ 8 + c * 2 ^ 16 + d * 2 ^ 24
unfolding fixed32_value
fixed32_value_sum a b c d pa pb pc pd =
    let s0 : u32 (a * 2 ^ 0) ≡ a = omega arith in
    let s1 : u32 (b * 2 ^ 8) ≡ b * 2 ^ 8 = omega arith in
    let s2 : u32 (c * 2 ^ 16) ≡ c * 2 ^ 16 = omega arith in
    let s3 : u32 (d * 2 ^ 24) ≡ d * 2 ^ 24 = omega arith in
    rw (
      s0,
      s1,
      s2,
      s3,
      bit_or_disjoint 8 (a) b (omega arith),
      bit_or_disjoint 16 (a + b * 2 ^ 8) c (omega arith),
      bit_or_disjoint 24 (a + b * 2 ^ 8 + c * 2 ^ 16) d (omega arith),
    )

fixed32_bytes_digits :
    (v : ℕ) → fixed32_bytes v ≡ v % 256 ∷ v / 2 ^ 8 % 256 ∷ v / 2 ^ 16 % 256 ∷ v / 2 ^ 24 % 256 ∷ []
unfolding fixed32_bytes
fixed32_bytes_digits v =
    let digit : (x : ℕ) → u8 (bit_and x 0xff) ≡ x % 256 = λ x. omega (arith, bit_and_mask 8 x) in
    rw (digit v, digit (v / 2 ^ 8), digit (v / 2 ^ 16), digit (v / 2 ^ 24))

-- The bytes are the digits to the base 256, the lowest first.
fixed32_value-bytes : (v : ℕ) → v < 2 ^ 32 → fixed32_value (fixed32_bytes v) ≡ v
fixed32_value-bytes v h = rw (fixed32_bytes_digits v) (
    fixed32_value_sum (v % 256) (v / 2 ^ 8 % 256) (v / 2 ^ 16 % 256) (v / 2 ^ 24 % 256)
      (omega arith) (omega arith) (omega arith) (omega arith)
    ∙ omega arith)

fixed64_value_sum :
    (a b c d e f g h : ℕ)
    → a < 256
    → b < 256
    → c < 256
    → d < 256
    → e < 256
    → f < 256
    → g < 256
    → h < 256
    → fixed64_value (a ∷ b ∷ c ∷ d ∷ e ∷ f ∷ g ∷ h ∷ [])
      ≡ a + b * 2 ^ 8 + c * 2 ^ 16 + d * 2 ^ 24 + e * 2 ^ 32 + f * 2 ^ 40 + g * 2 ^ 48 + h * 2 ^ 56
unfolding fixed64_value
fixed64_value_sum a b c d e f g h pa pb pc pd pe pf pg ph =
    let s0 : u64 (a * 2 ^ 0) ≡ a = omega arith in
    let s1 : u64 (b * 2 ^ 8) ≡ b * 2 ^ 8 = omega arith in
    let s2 : u64 (c * 2 ^ 16) ≡ c * 2 ^ 16 = omega arith in
    let s3 : u64 (d * 2 ^ 24) ≡ d * 2 ^ 24 = omega arith in
    let s4 : u64 (e * 2 ^ 32) ≡ e * 2 ^ 32 = omega arith in
    let s5 : u64 (f * 2 ^ 40) ≡ f * 2 ^ 40 = omega arith in
    let s6 : u64 (g * 2 ^ 48) ≡ g * 2 ^ 48 = omega arith in
    let s7 : u64 (h * 2 ^ 56) ≡ h * 2 ^ 56 = omega arith in
    rw (
      s0,
      s1,
      s2,
      s3,
      s4,
      s5,
      s6,
      s7,
      bit_or_disjoint 8 (a) b (omega arith),
      bit_or_disjoint 16 (a + b * 2 ^ 8) c (omega arith),
      bit_or_disjoint 24 (a + b * 2 ^ 8 + c * 2 ^ 16) d (omega arith),
      bit_or_disjoint 32 (a + b * 2 ^ 8 + c * 2 ^ 16 + d * 2 ^ 24) e (omega arith),
      bit_or_disjoint 40 (a + b * 2 ^ 8 + c * 2 ^ 16 + d * 2 ^ 24 + e * 2 ^ 32) f (omega arith),
      bit_or_disjoint 48 (a + b * 2 ^ 8 + c * 2 ^ 16 + d * 2 ^ 24 + e * 2 ^ 32 + f * 2 ^ 40) g
          (omega arith),
      bit_or_disjoint 56
          (a + b * 2 ^ 8 + c * 2 ^ 16 + d * 2 ^ 24 + e * 2 ^ 32 + f * 2 ^ 40 + g * 2 ^ 48) h
          (omega arith),
    )

fixed64_bytes_digits :
    (v : ℕ)
    → fixed64_bytes v
      ≡ v % 256
        ∷ v / 2 ^ 8 % 256
        ∷ v / 2 ^ 16 % 256
        ∷ v / 2 ^ 24 % 256
        ∷ v / 2 ^ 32 % 256
        ∷ v / 2 ^ 40 % 256
        ∷ v / 2 ^ 48 % 256
        ∷ v / 2 ^ 56 % 256
        ∷ []
unfolding fixed64_bytes
fixed64_bytes_digits v =
    let digit : (x : ℕ) → u8 (bit_and x 0xff) ≡ x % 256 = λ x. omega (arith, bit_and_mask 8 x) in
    rw (
      digit v,
      digit (v / 2 ^ 8),
      digit (v / 2 ^ 16),
      digit (v / 2 ^ 24),
      digit (v / 2 ^ 32),
      digit (v / 2 ^ 40),
      digit (v / 2 ^ 48),
      digit (v / 2 ^ 56),
    )

-- The bytes are the digits to the base 256, the lowest first.
fixed64_value-bytes : (v : ℕ) → v < 2 ^ 64 → fixed64_value (fixed64_bytes v) ≡ v
fixed64_value-bytes v h = rw (fixed64_bytes_digits v) (
    fixed64_value_sum (v % 256) (v / 2 ^ 8 % 256) (v / 2 ^ 16 % 256) (v / 2 ^ 24 % 256)
      (v / 2 ^ 32 % 256) (v / 2 ^ 40 % 256) (v / 2 ^ 48 % 256) (v / 2 ^ 56 % 256) (omega arith)
      (omega arith) (omega arith) (omega arith) (omega arith) (omega arith) (omega arith)
      (omega arith)
    ∙ omega arith)

module _ {S : Type 0} where
  read_fixed32 :
      (v n : ℕ) (l : List ℕ) (err : Option Errmsg)
      → 4 ≤ n
      → pb_read {S = S} 4 (reading (fixed32_bytes v ++ l) n err)
        ≡ ok (fixed32_bytes v) (reading l (n - 4) err)
  unfolding fixed32_bytes
  read_fixed32 v n l err long = pb_read_next (fixed32_bytes v) l n err long

  -- `pb_decode_fixed32` reads back every 32-bit value from the four bytes that `pb_encode_fixed32`
  -- writes, if the stream has them left, and takes no byte more.
  pub pb_decode_fixed32-bytes :
      (v n : ℕ) (l : List ℕ) (err : Option Errmsg)
      → v < 2 ^ 32
      → 4 ≤ n
      → pb_decode_fixed32 {S = S} (reading (fixed32_bytes v ++ l) n err)
        ≡ ok v (reading l (n - 4) err)
  unfolding pb_decode_fixed32
  pb_decode_fixed32-bytes v n l err h long =
      ap (λ o. bind o (λ bytes s. ok (fixed32_value bytes) s)) (read_fixed32 v n l err long)
      ∙ rw (fixed32_value-bytes v h)

  read_fixed64 :
      (v n : ℕ) (l : List ℕ) (err : Option Errmsg)
      → 8 ≤ n
      → pb_read {S = S} 8 (reading (fixed64_bytes v ++ l) n err)
        ≡ ok (fixed64_bytes v) (reading l (n - 8) err)
  unfolding fixed64_bytes
  read_fixed64 v n l err long = pb_read_next (fixed64_bytes v) l n err long

  -- `pb_decode_fixed64` reads back every 64-bit value from the eight bytes that `pb_encode_fixed64`
  -- writes, if the stream has them left, and takes no byte more.
  pub pb_decode_fixed64-bytes :
      (v n : ℕ) (l : List ℕ) (err : Option Errmsg)
      → v < 2 ^ 64
      → 8 ≤ n
      → pb_decode_fixed64 {S = S} (reading (fixed64_bytes v ++ l) n err)
        ≡ ok v (reading l (n - 8) err)
  unfolding pb_decode_fixed64
  pb_decode_fixed64-bytes v n l err h long =
      ap (λ o. bind o (λ bytes s. ok (fixed64_value bytes) s)) (read_fixed64 v n l err long)
      ∙ rw (fixed64_value-bytes v h)
