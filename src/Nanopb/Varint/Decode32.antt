-- ===== src/Nanopb/Varint/Decode32.antt =====
-- `pb_decode_varint32` of pb_decode.c on the bytes of a varint.
use social_timeline.Common.{
  ℕ, zero, suc, ◌+◌, ◌-◌, ◌*◌, ◌/◌, ◌%◌, ◌^◌, ◌≤◌, ◌<◌, ◌≡◌, arith, ◌∙◌, ap,
}
use social_timeline.Common.{true, false, Option, List, ◌∷◌, ◌++◌, length, u8, u32}
use social_timeline.Common.{
  ltb, ltb→lt, lt→leb, ◌==◌, ◌&&◌, if◌then◌else◌, bit_and, Bool-cases, inl, inr,
}
use social_timeline.Common.Bits.{bit_and_mask, bit_and_top, bit_and_0x70, bit_or_disjoint}
use social_timeline.Nanopb.Outcome.{Errmsg, ok}
use social_timeline.Nanopb.Istream.Reads.{reading, pb_readbyte_next}
use social_timeline.Nanopb.Varint.{varint32_loop, after_first, pb_decode_varint32}
use social_timeline.Nanopb.Varint.Bytes.{varint, length-varint, varint_bound}
use social_timeline.Nanopb.Varint.Decode64.{shift_by_seven, group_fits, low_group_apart}
use native.Mathlib.Nat.{pow-suc}
use native.Mathlib.Decide.{ℕ_discrete}
use mathlib.Core.Path.{subst}

-- The test behind the loop does not strike where the byte at bit 28 fits.
low_nibble_only :
    (bitpos g : ℕ)
    → g < 128
    → g * 2 ^ bitpos < 2 ^ 32
    → (bitpos + 7 == 35 && (if bit_and g 0x70 == 0 then false else true)) ≡ false
low_nibble_only bitpos g hg fits = elim (ℕ_discrete bitpos 28) [
  | yes e ↦
      let low : g * 2 ^ 28 < 2 ^ 32 = subst (λ (b : ℕ). g * 2 ^ b < 2 ^ 32) e fits in
      ground (arith, bit_and_0x70 g (omega arith))
  | no ne ↦ ground arith
]

module _ {S : Type 0} where
  inner_round32 :
      (fuel bitpos acc g n : ℕ) (l : List ℕ) (err : Option Errmsg)
      → g < 128
      → bitpos < 32
      → acc < 2 ^ bitpos
      → g * 2 ^ bitpos < 2 ^ 32
      → 0 < n
      → varint32_loop {S = S} (suc fuel) bitpos acc (reading ((g + 128) ∷ l) n err)
        ≡ varint32_loop fuel (bitpos + 7) (acc + g * 2 ^ bitpos) (reading l (n - 1) err)
  unfolding varint32_loop
  inner_round32 fuel bitpos acc g n l err hg hb ha fits pos =
      let group : bit_and (g + 128) 0x7f ≡ g = omega (arith, bit_and_mask 7 (g + 128)) in
      let top : bit_and (g + 128) 0x80 ≡ 128 = omega (arith, bit_and_top (g + 128) (omega arith)) in
      let shifted : u32 (g * 2 ^ bitpos) ≡ g * 2 ^ bitpos = omega arith in
      let moved : u8 (bitpos + 7) ≡ bitpos + 7 = omega arith in
      rw (
        pb_readbyte_next (g + 128) l n err pos,
        lt→leb 32 bitpos hb,
        group,
        top,
        shifted,
        moved,
        bit_or_disjoint bitpos acc g ha,
      )

  -- In the byte at bit 28 only four bits fit, which `g * 2 ^ 28 < 2 ^ 32` says.
  pub last_round32 :
      (fuel bitpos acc g n : ℕ) (l : List ℕ) (err : Option Errmsg)
      → g < 128
      → bitpos < 32
      → acc < 2 ^ bitpos
      → g * 2 ^ bitpos < 2 ^ 32
      → 0 < n
      → varint32_loop {S = S} (suc fuel) bitpos acc (reading (g ∷ l) n err)
        ≡ ok (acc + g * 2 ^ bitpos) (reading l (n - 1) err)
  unfolding varint32_loop
  last_round32 fuel bitpos acc g n l err hg hb ha fits pos =
      let group : bit_and g 0x7f ≡ g = omega (arith, bit_and_mask 7 g) in
      let top : bit_and g 0x80 ≡ 0 = omega (arith, bit_and_top g (omega arith)) in
      let shifted : u32 (g * 2 ^ bitpos) ≡ g * 2 ^ bitpos = omega arith in
      let moved : u8 (bitpos + 7) ≡ bitpos + 7 = omega arith in
      rw
        (
          pb_readbyte_next g l n err pos,
          lt→leb 32 bitpos hb,
          group,
          top,
          shifted,
          moved,
          bit_or_disjoint bitpos acc g ha,
        )
        (rw (low_nibble_only bitpos g hg fits))

  -- The rounds behind the first byte, with as many rounds allowed as there are bytes, or more.
  varint32_loop-varint :
      (k fuel w acc bitpos n : ℕ) (l : List ℕ) (err : Option Errmsg)
      → w < 128 ^ suc k
      → bitpos + 7 * k < 32
      → acc < 2 ^ bitpos
      → w * 2 ^ bitpos < 2 ^ 32
      → length (varint k w) ≤ n
      → length (varint k w) ≤ fuel
      → varint32_loop {S = S} fuel bitpos acc (reading (varint k w ++ l) n err)
        ≡ ok (acc + w * 2 ^ bitpos) (reading l (n - length (varint k w)) err)
  unfolding varint
  varint32_loop-varint zero zero w acc bitpos n l err hw hb ha fits =
      λ long enough. absurd (omega arith)
  varint32_loop-varint zero (suc fuel) w acc bitpos n l err hw hb ha fits =
      λ long enough. last_round32 fuel bitpos acc w n l err (omega arith) (omega arith) ha fits long
  varint32_loop-varint (suc k) zero w acc bitpos n l err hw hb ha fits =
      λ long enough. absurd (unfold varint in ground (arith, length-varint (suc k) w))
  varint32_loop-varint (suc k) (suc fuel) w acc bitpos n l err hw hb ha fits =
      elim (Bool-cases (ltb w 128)) [
        | inl lt ↦ rw lt λ long enough.
            last_round32 fuel bitpos acc w n l err (ltb→lt _ _ lt) (omega arith) ha fits long
        | inr ge ↦
            let apart = low_group_apart w bitpos in
            let sum : acc + w % 128 * 2 ^ bitpos + w / 128 * 2 ^ (bitpos + 7)
                ≡ acc + w * 2 ^ bitpos =
              omega (arith, apart) in
            let count : n - 1 - length (varint k (w / 128))
                ≡ n - suc (length (varint k (w / 128))) =
              omega arith in
            rw ge λ long enough.
              inner_round32 fuel bitpos acc (w % 128) n _ err (omega arith) (omega arith) ha
                (omega (arith, apart)) (omega arith)
              ∙ varint32_loop-varint k fuel (w / 128) (acc + w % 128 * 2 ^ bitpos) (bitpos + 7)
                  (n - 1) l err (omega (arith, pow-suc 128 (suc k))) (omega arith)
                  (rw (shift_by_seven bitpos)
                    (group_fits acc (w % 128) (2 ^ bitpos) ha (omega arith)))
                  (omega (arith, apart)) (omega arith) (omega arith)
              ∙ rw (sum, count)
      ]

  -- The first byte, read before the loop.
  pub first_round32 :
      (w n : ℕ) (l : List ℕ) (err : Option Errmsg)
      → w < 128
      → 0 < n
      → pb_decode_varint32 {S = S} (reading (w ∷ l) n err) ≡ ok w (reading l (n - 1) err)
  unfolding pb_decode_varint32
  first_round32 w n l err hw pos =
      let top : bit_and w 0x80 ≡ 0 = omega (arith, bit_and_top w (omega arith)) in
      ap (λ o. (after_first o).0) (pb_readbyte_next w l n err pos) ∙ (unfold after_first in rw top)

  pub first_round32_more :
      (g n : ℕ) (l : List ℕ) (err : Option Errmsg)
      → g < 128
      → 0 < n
      → pb_decode_varint32 {S = S} (reading ((g + 128) ∷ l) n err)
        ≡ varint32_loop (n - 1) 7 g (reading l (n - 1) err)
  unfolding pb_decode_varint32
  first_round32_more g n l err hg pos =
      let group : bit_and (g + 128) 0x7f ≡ g = omega (arith, bit_and_mask 7 (g + 128)) in
      let top : bit_and (g + 128) 0x80 ≡ 128 = omega (arith, bit_and_top (g + 128) (omega arith)) in
      ap (λ o. (after_first o).0) (pb_readbyte_next (g + 128) l n err pos)
      ∙ (unfold after_first in rw (group, top))

  varint32_four :
      (v n : ℕ) (l : List ℕ) (err : Option Errmsg)
      → v < 2 ^ 32
      → length (varint 4 v) ≤ n
      → pb_decode_varint32 {S = S} (reading (varint 4 v ++ l) n err)
        ≡ ok v (reading l (n - length (varint 4 v)) err)
  unfolding varint
  varint32_four v n l err small = elim (Bool-cases (ltb v 128)) [
    | inl lt ↦ rw lt λ long. first_round32 v n l err (ltb→lt _ _ lt) long
    | inr ge ↦
        let rest = length (varint 3 (v / 128)) in
        let value : v % 128 + v / 128 * 2 ^ 7 ≡ v = omega arith in
        let count : n - 1 - rest ≡ n - suc rest = omega arith in
        rw ge λ long.
          first_round32_more (v % 128) n _ err (omega arith) (omega arith)
          ∙ varint32_loop-varint 3 (n - 1) (v / 128) (v % 128) 7 (n - 1) l err (omega arith)
              (omega arith) (omega arith) (omega arith) (omega arith) (omega arith)
          ∙ rw (value, count)
  ]

  -- `pb_decode_varint32` reads back every 32-bit value from its bytes, and takes no byte more.
  pub pb_decode_varint32-varint :
      (v n : ℕ) (l : List ℕ) (err : Option Errmsg)
      → v < 2 ^ 32
      → length (varint 9 v) ≤ n
      → pb_decode_varint32 {S = S} (reading (varint 9 v ++ l) n err)
        ≡ ok v (reading l (n - length (varint 9 v)) err)
  pb_decode_varint32-varint v n l err small =
      rw (varint_bound 4 9 v (omega arith) (omega arith)) (varint32_four v n l err small)
