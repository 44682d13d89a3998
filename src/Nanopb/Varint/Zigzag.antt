-- ===== src/Nanopb/Varint/Zigzag.antt =====
-- The zigzag form of signed integers (`pb_encode_svarint` of pb_encode.c and `pb_decode_svarint` of
-- pb_decode.c), on 64-bit patterns.
use social_timeline.Common.{ℕ, ◌-◌, ◌*◌, ◌^◌, ◌≤◌, ◌<◌, ◌≡◌, arith, ltb, if◌then◌else◌}
use social_timeline.Common.{Option, List, ◌++◌, length}
use social_timeline.Common.Bits.{bit_and_mask}
use social_timeline.Nanopb.Outcome.{Errmsg, ok}
use social_timeline.Nanopb.Istream.Reads.{reading}
use social_timeline.Nanopb.Varint.{zigzag, unzigzag, pb_decode_svarint}
use social_timeline.Nanopb.Varint.Bytes.{varint}
use social_timeline.Nanopb.Varint.Decode64.{pb_decode_varint-varint}

-- 0, -1, 1, -2, 2, … become 0, 1, 2, 3, 4, …: a pattern below 2 ^ 63 is that number, any other
-- pattern `v` is the number `v - 2 ^ 64`.
pub zigzag_value :
    (v : ℕ) → v < 2 ^ 64 → zigzag v ≡ (if ltb v (2 ^ 63) then 2 * v else 2 * (2 ^ 64 - v) - 1)
unfolding zigzag
zigzag_value v h = ground arith

pub zigzag-lt : (v : ℕ) → zigzag v < 2 ^ 64
unfolding zigzag
zigzag-lt v = ground arith

-- Decoding undoes the encoding on every 64-bit pattern.
pub unzigzag-zigzag : (v : ℕ) → v < 2 ^ 64 → unzigzag (zigzag v) ≡ v
unfolding unzigzag
unzigzag-zigzag v h = ground (arith, zigzag_value v h, bit_and_mask 1 (zigzag v))

-- Encoding undoes the decoding on every 64-bit pattern.
pub zigzag-unzigzag : (z : ℕ) → z < 2 ^ 64 → zigzag (unzigzag z) ≡ z
unfolding unzigzag zigzag
zigzag-unzigzag z h = ground (arith, bit_and_mask 1 z)

module _ {S : Type 0} where
  -- `pb_decode_svarint` reads back every `int64_t` from the bytes that `pb_encode_svarint` writes.
  pub pb_decode_svarint-varint :
      (v n : ℕ) (l : List ℕ) (err : Option Errmsg)
      → v < 2 ^ 64
      → length (varint 9 (zigzag v)) ≤ n
      → pb_decode_svarint {S = S} (reading (varint 9 (zigzag v) ++ l) n err)
        ≡ ok v (reading l (n - length (varint 9 (zigzag v))) err)
  unfolding pb_decode_svarint
  pb_decode_svarint-varint v n l err h long =
      rw (pb_decode_varint-varint (zigzag v) n l err (zigzag-lt v) long, unzigzag-zigzag v h)
