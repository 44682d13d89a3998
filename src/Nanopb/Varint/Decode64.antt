-- ===== src/Nanopb/Varint/Decode64.antt =====
-- `pb_decode_varint` of pb_decode.c on the bytes of a varint.
use social_timeline.Common.{
  ℕ, zero, suc, ◌+◌, ◌-◌, ◌*◌, ◌/◌, ◌%◌, ◌^◌, ◌≤◌, ◌<◌, ◌≡◌, arith, ◌∙◌, ap,
}
use social_timeline.Common.{Option, List, ◌∷◌, ◌++◌, length, u8, u64}
use social_timeline.Common.{ltb, ltb→lt, lt→leb, bit_and, Bool-cases, inl, inr}
use social_timeline.Common.Bits.{bit_and_mask, bit_and_top, bit_or_disjoint}
use social_timeline.Nanopb.Outcome.{Errmsg, ok}
use social_timeline.Nanopb.Istream.Reads.{reading, pb_readbyte_next}
use social_timeline.Nanopb.Varint.{varint_loop, pb_decode_varint}
use social_timeline.Nanopb.Varint.Bytes.{varint}
use native.Mathlib.Nat.{pow-suc, div-add-mod}
use native.Mathlib.Numerals.{towards_suc}

module _ {S : Type 0} where
  -- A byte with its top bit set over the group `g`, and a last byte.
  inner_round :
      (fuel bitpos acc g n : ℕ) (l : List ℕ) (err : Option Errmsg)
      → g < 128
      → bitpos < 64
      → acc < 2 ^ bitpos
      → g * 2 ^ bitpos < 2 ^ 64
      → 0 < n
      → varint_loop {S = S} (suc fuel) bitpos acc (reading ((g + 128) ∷ l) n err)
        ≡ varint_loop fuel (bitpos + 7) (acc + g * 2 ^ bitpos) (reading l (n - 1) err)
  unfolding varint_loop
  inner_round fuel bitpos acc g n l err hg hb ha fits pos =
      let group : bit_and (g + 128) 0x7f ≡ g = omega (arith, bit_and_mask 7 (g + 128)) in
      let top : bit_and (g + 128) 0x80 ≡ 128 = omega (arith, bit_and_top (g + 128) (omega arith)) in
      let shifted : u64 (g * 2 ^ bitpos) ≡ g * 2 ^ bitpos = omega arith in
      let moved : u8 (bitpos + 7) ≡ bitpos + 7 = omega arith in
      rw (
        lt→leb 64 bitpos hb,
        pb_readbyte_next (g + 128) l n err pos,
        group,
        top,
        shifted,
        moved,
        bit_or_disjoint bitpos acc g ha,
      )

  last_round :
      (fuel bitpos acc g n : ℕ) (l : List ℕ) (err : Option Errmsg)
      → g < 128
      → bitpos < 64
      → acc < 2 ^ bitpos
      → g * 2 ^ bitpos < 2 ^ 64
      → 0 < n
      → varint_loop {S = S} (suc fuel) bitpos acc (reading (g ∷ l) n err)
        ≡ ok (acc + g * 2 ^ bitpos) (reading l (n - 1) err)
  unfolding varint_loop
  last_round fuel bitpos acc g n l err hg hb ha fits pos =
      let group : bit_and g 0x7f ≡ g = omega (arith, bit_and_mask 7 g) in
      let top : bit_and g 0x80 ≡ 0 = omega (arith, bit_and_top g (omega arith)) in
      let shifted : u64 (g * 2 ^ bitpos) ≡ g * 2 ^ bitpos = omega arith in
      rw (
        lt→leb 64 bitpos hb,
        pb_readbyte_next g l n err pos,
        group,
        top,
        shifted,
        bit_or_disjoint bitpos acc g ha,
      )

-- Seven bits further.
pub shift_by_seven : (s : ℕ) → 2 ^ (s + 7) ≡ 128 * 2 ^ s
shift_by_seven s = simp towards_suc (omega arith)

pub group_fits : (acc g p : ℕ) → acc < p → g < 128 → acc + g * p < 128 * p
group_fits acc g p ha hg = grind arith

-- The lowest group and the others, in place.
pub low_group_apart :
    (v at_bit : ℕ) → v / 128 * 2 ^ (at_bit + 7) + v % 128 * 2 ^ at_bit ≡ v * 2 ^ at_bit
low_group_apart v at_bit =
    let split = ap (λ (part : ℕ). part * 2 ^ at_bit) (div-add-mod v 128) in
    let moved = ap (λ (unit : ℕ). v / 128 * unit) (shift_by_seven at_bit) in
    omega (arith, split, moved)

module _ {S : Type 0} where
  varint_loop-varint :
      (k fuel w acc bitpos n : ℕ) (l : List ℕ) (err : Option Errmsg)
      → w < 128 ^ suc k
      → bitpos + 7 * k < 64
      → acc < 2 ^ bitpos
      → w * 2 ^ bitpos < 2 ^ 64
      → length (varint k w) ≤ n
      → varint_loop {S = S} (suc (k + fuel)) bitpos acc (reading (varint k w ++ l) n err)
        ≡ ok (acc + w * 2 ^ bitpos) (reading l (n - length (varint k w)) err)
  unfolding varint
  varint_loop-varint zero fuel w acc bitpos n l err hw hb ha fits =
      λ long. last_round (zero + fuel) bitpos acc w n l err (omega arith) (omega arith) ha fits long
  varint_loop-varint (suc k) fuel w acc bitpos n l err hw hb ha fits =
      elim (Bool-cases (ltb w 128)) [
        | inl lt ↦ rw lt λ long.
            last_round (suc k + fuel) bitpos acc w n l err (ltb→lt _ _ lt) (omega arith) ha fits
              long
        | inr ge ↦
            let apart = low_group_apart w bitpos in
            let carry : suc k + fuel ≡ suc (k + fuel) = omega arith in
            let sum : acc + w % 128 * 2 ^ bitpos + w / 128 * 2 ^ (bitpos + 7)
                ≡ acc + w * 2 ^ bitpos =
              omega (arith, apart) in
            let count : n - 1 - length (varint k (w / 128))
                ≡ n - suc (length (varint k (w / 128))) =
              omega arith in
            rw (ge, carry)
              λ long.
                inner_round (suc (k + fuel)) bitpos acc (w % 128) n _ err (omega arith)
                  (omega arith) ha (omega (arith, apart)) (omega arith)
                ∙ varint_loop-varint k fuel (w / 128) (acc + w % 128 * 2 ^ bitpos) (bitpos + 7)
                    (n - 1) l err (omega (arith, pow-suc 128 (suc k))) (omega arith)
                    (rw (shift_by_seven bitpos)
                      (group_fits acc (w % 128) (2 ^ bitpos) ha (omega arith)))
                    (omega (arith, apart)) (omega arith)
                ∙ rw (sum, count)
      ]

  -- `pb_decode_varint` reads back every 64-bit value from its bytes, and takes no byte more.
  pub pb_decode_varint-varint :
      (v n : ℕ) (l : List ℕ) (err : Option Errmsg)
      → v < 2 ^ 64
      → length (varint 9 v) ≤ n
      → pb_decode_varint {S = S} (reading (varint 9 v ++ l) n err)
        ≡ ok v (reading l (n - length (varint 9 v)) err)
  unfolding pb_decode_varint
  pb_decode_varint-varint v n l err small long =
      let value : 0 + v * 2 ^ 0 ≡ v = omega arith in
      varint_loop-varint 9 1 v 0 0 n l err (omega arith) (omega arith) (omega arith) (omega arith)
        long
      ∙ rw value
