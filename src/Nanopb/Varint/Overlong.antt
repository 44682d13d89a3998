-- ===== src/Nanopb/Varint/Overlong.antt =====
-- Varints that are longer than a number: what `pb_decode_varint32` of pb_decode.c makes of them.
use social_timeline.Common.{ℕ, zero, suc, ◌+◌, ◌-◌, ◌*◌, ◌%◌, ◌^◌, ◌≤◌, ◌<◌, ◌≡◌, arith, ◌∙◌, ap}
use social_timeline.Common.{Option, List, ◌∷◌, u8, u32, leb, bit_and, bit_or, Bool-cases, inl, inr}
use social_timeline.Common.Bits.{bit_and_mask, bit_and_top, bit_or-zero}
use social_timeline.Nanopb.Outcome.{Errmsg, ok}
use social_timeline.Nanopb.Istream.Reads.{reading, pb_readbyte_next}
use social_timeline.Nanopb.Varint.{varint32_loop, overflows32, pb_decode_varint32}
use social_timeline.Nanopb.Varint.Decode32.{first_round32_more}

abbrev pub pads : ℕ → List ℕ → List ℕ
pads zero l = l
pads (suc k) l = 0x80 ∷ pads k l

module _ {S : Type 0} where
  -- A byte 0x80 adds nothing, and only moves `bitpos`, which has 8 bits.
  pad_round :
      (fuel bitpos acc n : ℕ) (l : List ℕ) (err : Option Errmsg)
      → 0 < n
      → varint32_loop {S = S} (suc fuel) bitpos acc (reading (0x80 ∷ l) n err)
        ≡ varint32_loop fuel (u8 (bitpos + 7)) acc (reading l (n - 1) err)
  unfolding varint32_loop overflows32
  pad_round fuel bitpos acc n l err pos = elim (Bool-cases (leb 32 bitpos)) [
    | inl high ↦ rw (pb_readbyte_next 0x80 l n err pos, high)
    | inr low ↦
        let nothing : u32 (0 * 2 ^ bitpos) ≡ 0 = omega arith in
        rw (pb_readbyte_next 0x80 l n err pos, low, nothing, bit_or-zero acc)
  ]

  pad_rounds :
      (k fuel bitpos acc n : ℕ) (l : List ℕ) (err : Option Errmsg)
      → k ≤ n
      → bitpos < 256
      → varint32_loop {S = S} (k + fuel) bitpos acc (reading (pads k l) n err)
        ≡ varint32_loop fuel ((bitpos + 7 * k) % 256) acc (reading l (n - k) err)
  pad_rounds zero fuel bitpos acc n l err le small =
      let f : 0 + fuel ≡ fuel = omega arith in
      let b : (bitpos + 7 * 0) % 256 ≡ bitpos = omega arith in
      let m : n - 0 ≡ n = omega arith in rw (f, b, m)
  pad_rounds (suc k) fuel bitpos acc n l err le small =
      let f : suc k + fuel ≡ suc (k + fuel) = omega arith in
      let b : ((bitpos + 7) % 256 + 7 * k) % 256 ≡ (bitpos + 7 * suc k) % 256 = omega arith in
      let m : n - 1 - k ≡ n - suc k = omega arith in
      rw f (
        pad_round (k + fuel) bitpos acc n (pads k l) err (omega arith)
        ∙ pad_rounds k fuel (u8 (bitpos + 7)) acc (n - 1) l err (omega arith) (omega arith)
        ∙ rw (b, m))

  last_at_three :
      (fuel acc b n : ℕ) (l : List ℕ) (err : Option Errmsg)
      → b < 128
      → 0 < n
      → varint32_loop {S = S} (suc fuel) 3 acc (reading (b ∷ l) n err)
        ≡ ok (bit_or acc (b * 8)) (reading l (n - 1) err)
  unfolding varint32_loop
  last_at_three fuel acc b n l err hb pos =
      let group : bit_and b 0x7f ≡ b = omega (arith, bit_and_mask 7 b) in
      let top : bit_and b 0x80 ≡ 0 = omega (arith, bit_and_top b (omega arith)) in
      let whole : u32 (b * 8) ≡ b * 8 = omega arith in
      rw (pb_readbyte_next b l n err pos, group, top, whole)

  -- After a first byte and 36 bytes 0x80 the 8-bit `bitpos` has wrapped around to 3: the last byte,
  -- which stands for `b * 2 ^ 259`, is put at bit 3 of the result, and there is no overflow error.
  pub pb_decode_varint32_wraps :
      (g b n : ℕ) (l : List ℕ) (err : Option Errmsg)
      → g < 128
      → b < 128
      → 38 ≤ n
      → pb_decode_varint32 {S = S} (reading ((g + 128) ∷ pads 36 (b ∷ l)) n err)
        ≡ ok (bit_or g (b * 8)) (reading l (n - 38) err)
  pb_decode_varint32_wraps g b n l err hg hb long =
      let fuel : n - 1 ≡ 36 + suc (n - 38) = omega arith in
      let left : n - 1 - 36 - 1 ≡ n - 38 = omega arith in
      first_round32_more g n _ err hg (omega arith)
      ∙ ap (λ (f : ℕ). varint32_loop f 7 g (reading (pads 36 (b ∷ l)) (n - 1) err)) fuel
      ∙ pad_rounds 36 (suc (n - 38)) 7 g (n - 1) (b ∷ l) err (omega arith) (omega arith)
      ∙ last_at_three (n - 38) g b (n - 1 - 36) l err hb (omega arith)
      ∙ rw left
