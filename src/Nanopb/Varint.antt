-- ===== src/Nanopb/Varint.antt =====
-- Variable-length integers: `pb_encode_varint`, `pb_encode_svarint`, `pb_encode_tag` of
-- pb_encode.c, and `pb_decode_varint`, `pb_decode_varint32`, `pb_decode_svarint`, `pb_skip_varint`
-- of pb_decode.c. A value of type `int64_t` is its 64-bit pattern; `uint_fast8_t` has 8 bits.
pub mod Bytes
pub mod Decode64
pub mod Decode32
pub mod Overlong
pub mod Zigzag
pub mod Limits
use social_timeline.Common.{
  ℕ, zero, suc, ◌+◌, ◌-◌, ◌*◌, ◌/◌, ◌%◌, ◌^◌, Bool, true, false, Option, none, some,
}
use social_timeline.Common.{
  List, [], ◌∷◌, ◌++◌, ◌&&◌, ◌||◌, bit_and, bit_or, bit_xor, length, ltb, leb, ◌==◌,
}
use social_timeline.Common.{if◌then◌else◌, u8, u32, u64, ◌<<<◌, ◌>>>◌}
use social_timeline.Nanopb.Outcome.{
  Errmsg, varint_overflow, Outcome, ok, fail, Run, ◌>>=◌, ◌>>◌, pure, bind,
}
use social_timeline.Nanopb.Ostream.{Ostream, pb_write}
use social_timeline.Nanopb.Istream
use social_timeline.Nanopb.Istream.{Istream, pb_read, pb_readbyte}

-- `while (value)`, with the array `buffer` of ten bytes as what has been stored of it. A value of 64
-- bits takes ten rounds at most, so the fuel of eleven never runs out.
unfoldable pub fill_buffer : ℕ → ℕ → List ℕ → List ℕ
fill_buffer zero value buf = buf
fill_buffer (suc fuel) value buf =
    let rest =
      fill_buffer fuel (value >>> 7) (buf ++ (u8 (bit_or (bit_and value 0x7f) 0x80) ∷ [])) in
    if value == 0 then buf else rest

-- `buffer[i-1] &= 0x7F`
unfoldable pub clear_last : List ℕ → List ℕ
clear_last [] = []
clear_last (b ∷ []) = bit_and b 0x7f ∷ []
clear_last (b ∷ c ∷ buf) = b ∷ clear_last (c ∷ buf)

-- The bytes that `pb_encode_varint` hands to `pb_write`.
unfoldable pub varint_buffer : ℕ → List ℕ
unfolding fill_buffer clear_last
varint_buffer value = if leb value 0x7f then u8 value ∷ [] else clear_last (fill_buffer 11 value [])

unfoldable pub pb_encode_varint : {S : Type 0} → ℕ → Run (Ostream S) (Unit {0})
unfolding varint_buffer
pb_encode_varint value = pb_write (varint_buffer value) (length (varint_buffer value))

-- `~x` of a 64-bit pattern.
abbrev pub not64 : ℕ → ℕ
not64 x = 2 ^ 64 - 1 - x

-- The zigzag value; `value < 0` is the top bit.
unfoldable pub zigzag : ℕ → ℕ
zigzag value = if leb (2 ^ 63) value then not64 (u64 (value <<< 1)) else u64 (value <<< 1)

unfoldable pub pb_encode_svarint : {S : Type 0} → ℕ → Run (Ostream S) (Unit {0})
unfolding zigzag
pb_encode_svarint value = pb_encode_varint (zigzag value)

-- The do-while loop of `pb_decode_varint` at `bitpos`, which grows by 7 from 0 and is tested against
-- 64 first: eleven rounds are never all used.
unfoldable pub varint_loop : {S : Type 0} → ℕ → ℕ → ℕ → Run (Istream S) ℕ
varint_loop zero bitpos result s = Istream.return_error varint_overflow s
varint_loop (suc fuel) bitpos result s =
    let round = bind (pb_readbyte s) λ byte s'.
      let result' = bit_or result (u64 (bit_and byte 0x7f <<< bitpos)) in
      let again = varint_loop fuel (u8 (bitpos + 7)) result' s' in
      if bit_and byte 0x80 == 0 then ok result' s' else again in
    if leb 64 bitpos then Istream.return_error varint_overflow s else round

unfoldable pub pb_decode_varint : {S : Type 0} → Run (Istream S) ℕ
unfolding varint_loop
pb_decode_varint = varint_loop 11 0 0

-- The test on a byte from bit 32 on: zeros, or the sign extension of a negative number.
unfoldable pub overflows32 : ℕ → ℕ → ℕ → Bool
overflows32 byte bitpos result =
    let sign_extension : ℕ = if ltb bitpos 63 then 0xff else 0x01 in
    (if bit_and byte 0x7f == 0 then false else true)
    && ((result >>> 31) == 0 || (if byte == sign_extension then false else true))

-- The multibyte case of `pb_decode_varint32_eof`: a round of the do-while loop. Each takes a byte,
-- so `bytes_left` rounds are enough.
unfoldable pub varint32_loop : {S : Type 0} → ℕ → ℕ → ℕ → Run (Istream S) ℕ
varint32_loop zero bitpos result s = Istream.return_error Errmsg.end_of_stream s
varint32_loop (suc fuel) bitpos result s = bind (pb_readbyte s) λ byte s'.
    let result' =
      if leb 32 bitpos then result else bit_or result (u32 (bit_and byte 0x7f <<< bitpos)) in
    let bitpos' = u8 (bitpos + 7) in
    let again = varint32_loop fuel bitpos' result' s' in
    let last =
      if bitpos' == 35 && (if bit_and byte 0x70 == 0 then false else true)
      then Istream.return_error varint_overflow s'
      else ok result' s' in
    if leb 32 bitpos && overflows32 byte bitpos result
    then Istream.return_error varint_overflow s'
    else if bit_and byte 0x80 == 0
    then last
    else again

-- `pb_decode_varint32_eof` behind its first `pb_readbyte`; the second part is the new `*eof`.
unfoldable pub after_first : {S : Type 0} → Outcome (Istream S) ℕ → Outcome (Istream S) ℕ × Bool
after_first (fail s) = (fail s, s.bytes_left == 0)
after_first (ok byte s) =
    let more = varint32_loop s.bytes_left 7 (bit_and byte 0x7f) s in
    (if bit_and byte 0x80 == 0 then ok byte s else more, false)

unfoldable pub pb_decode_varint32_eof : {S : Type 0} → Istream S → Outcome (Istream S) ℕ × Bool
pb_decode_varint32_eof s = after_first (pb_readbyte s)

unfoldable pub pb_decode_varint32 : {S : Type 0} → Run (Istream S) ℕ
unfolding pb_decode_varint32_eof
pb_decode_varint32 s = (pb_decode_varint32_eof s).0

-- The loop of `pb_skip_varint`: each round takes a byte.
unfoldable pub skip_varint_loop : {S : Type 0} → ℕ → Run (Istream S) (Unit {0})
skip_varint_loop zero s = Istream.return_error Errmsg.end_of_stream s
skip_varint_loop (suc fuel) s = bind ((pb_read 1 >>= Istream.first_byte) s) λ byte s'.
    let again = skip_varint_loop fuel s' in if bit_and byte 0x80 == 0 then ok tt s' else again

unfoldable pub pb_skip_varint : {S : Type 0} → Run (Istream S) (Unit {0})
unfolding skip_varint_loop
pb_skip_varint s = skip_varint_loop (s.bytes_left + 1) s

-- The number that a zigzag value stands for, as a 64-bit pattern.
unfoldable pub unzigzag : ℕ → ℕ
unzigzag value = if bit_and value 1 == 0 then value >>> 1 else not64 (value >>> 1)

unfoldable pub pb_decode_svarint : {S : Type 0} → Run (Istream S) ℕ
pb_decode_svarint = pb_decode_varint >>= λ value. pure (unzigzag value)
