-- ===== src/Nanopb/Wire.antt =====
-- The wire format of a field: tags, fixed-width values, length-delimited strings, skipping and
-- substreams (pb_encode.c and pb_decode.c).
pub mod Encode
pub mod Decode
pub mod Fixed
pub mod Skip
pub mod Raw
pub mod Takes
use social_timeline.Common.{
  ℕ, zero, suc, ◌+◌, ◌-◌, ◌*◌, ◌/◌, ◌%◌, ◌^◌, Bool, true, false, Option, none, some,
}
use social_timeline.Common.{
  List, [], ◌∷◌, ◌++◌, bit_and, bit_or, get_or, ltb, ◌==◌, if◌then◌else◌, u8, u32, u64,
}
use social_timeline.Common.{◌<<<◌, ◌>>>◌}
use social_timeline.Nanopb.Outcome.{Errmsg, invalid_wire_type, parent_stream_too_short}
use social_timeline.Nanopb.Outcome.{Outcome, ok, fail, Run, bind, pure, ◌>>=◌, ◌>>◌}
use social_timeline.Nanopb.Ostream.{Ostream, pb_write}
use social_timeline.Nanopb.Istream
use social_timeline.Nanopb.Istream.{Istream, pb_read, pb_skip}
use social_timeline.Nanopb.Varint.{
  pb_encode_varint, pb_decode_varint32, pb_decode_varint32_eof, pb_skip_varint,
}

-- `pb_wire_type_t`. A value cast from three bits of a tag may be none of these.
abbrev pub wt_varint : ℕ
wt_varint = 0

abbrev pub wt_64bit : ℕ
wt_64bit = 1

abbrev pub wt_string : ℕ
wt_string = 2

abbrev pub wt_32bit : ℕ
wt_32bit = 5

unfoldable pub pb_encode_tag : {S : Type 0} → ℕ → ℕ → Run (Ostream S) (Unit {0})
pb_encode_tag wiretype field_number = pb_encode_varint (bit_or (u64 (field_number <<< 3)) wiretype)

-- The bytes of `pb_encode_fixed32` and `pb_encode_fixed64`.
unfoldable pub fixed32_bytes : ℕ → List ℕ
fixed32_bytes v =
    u8 (bit_and v 0xff)
    ∷ u8 (bit_and (v >>> 8) 0xff)
    ∷ u8 (bit_and (v >>> 16) 0xff)
    ∷ u8 (bit_and (v >>> 24) 0xff)
    ∷ []

unfoldable pub fixed64_bytes : ℕ → List ℕ
fixed64_bytes v =
    u8 (bit_and v 0xff)
    ∷ u8 (bit_and (v >>> 8) 0xff)
    ∷ u8 (bit_and (v >>> 16) 0xff)
    ∷ u8 (bit_and (v >>> 24) 0xff)
    ∷ u8 (bit_and (v >>> 32) 0xff)
    ∷ u8 (bit_and (v >>> 40) 0xff)
    ∷ u8 (bit_and (v >>> 48) 0xff)
    ∷ u8 (bit_and (v >>> 56) 0xff)
    ∷ []

unfoldable pub pb_encode_fixed32 : {S : Type 0} → ℕ → Run (Ostream S) (Unit {0})
pb_encode_fixed32 v = pb_write (fixed32_bytes v) 4

unfoldable pub pb_encode_fixed64 : {S : Type 0} → ℕ → Run (Ostream S) (Unit {0})
pb_encode_fixed64 v = pb_write (fixed64_bytes v) 8

unfoldable pub pb_encode_string : {S : Type 0} → List ℕ → ℕ → Run (Ostream S) (Unit {0})
pb_encode_string buffer size = do pb_encode_varint size; pb_write buffer size

-- `(uint32_t)bytes[i] << k`, or-ed together from the first byte on.
unfoldable pub fixed32_value : List ℕ → ℕ
fixed32_value b =
    bit_or
      (bit_or (bit_or (u32 (get_or b 0 0 <<< 0)) (u32 (get_or b 1 0 <<< 8)))
        (u32 (get_or b 2 0 <<< 16)))
      (u32 (get_or b 3 0 <<< 24))

unfoldable pub fixed64_value : List ℕ → ℕ
fixed64_value b =
    bit_or
      (bit_or
        (bit_or
          (bit_or
            (bit_or
              (bit_or (bit_or (u64 (get_or b 0 0 <<< 0)) (u64 (get_or b 1 0 <<< 8)))
                (u64 (get_or b 2 0 <<< 16)))
              (u64 (get_or b 3 0 <<< 24)))
            (u64 (get_or b 4 0 <<< 32)))
          (u64 (get_or b 5 0 <<< 40)))
        (u64 (get_or b 6 0 <<< 48)))
      (u64 (get_or b 7 0 <<< 56))

unfoldable pub pb_decode_fixed32 : {S : Type 0} → Run (Istream S) ℕ
pb_decode_fixed32 = pb_read 4 >>= λ bytes. pure (fixed32_value bytes)

unfoldable pub pb_decode_fixed64 : {S : Type 0} → Run (Istream S) ℕ
pb_decode_fixed64 = pb_read 8 >>= λ bytes. pure (fixed64_value bytes)

-- What a tag holds.
pub record Tag : Type 0 where
  pub wire_type : ℕ
  pub tag : ℕ

-- `pb_decode_tag` behind its varint, with the `*eof` that this has left.
unfoldable pub after_tag :
    {S : Type 0} → Outcome (Istream S) ℕ × Bool → Outcome (Istream S) Tag × Bool
after_tag (fail s, eof) = (fail s, eof)
after_tag (ok temp s, eof) =
    if temp == 0
    then (fail s, true)
    else (ok (record { wire_type = bit_and temp 7; tag = temp >>> 3 }) s, eof)

unfoldable pub pb_decode_tag : {S : Type 0} → Istream S → Outcome (Istream S) Tag × Bool
pb_decode_tag s = after_tag (pb_decode_varint32_eof s)

unfoldable pub pb_skip_string : {S : Type 0} → Run (Istream S) (Unit {0})
pb_skip_string = do length ← pb_decode_varint32; pb_skip length; pure tt

unfoldable pub pb_skip_field : {S : Type 0} → ℕ → Run (Istream S) (Unit {0})
pb_skip_field wire_type =
    if wire_type == wt_varint
    then pb_skip_varint
    else if wire_type == wt_64bit
    then (pb_skip 8 >>= λ _. pure tt)
    else if wire_type == wt_string
    then pb_skip_string
    else if wire_type == wt_32bit
    then (pb_skip 4 >>= λ _. pure tt)
    else Istream.return_error invalid_wire_type

-- The substream over the next `size` bytes, and the stream behind them.
unfoldable pub cut_substream : {S : Type 0} → ℕ → Run (Istream S) (Istream S)
cut_substream size s =
    if ltb s.bytes_left size
    then Istream.return_error parent_stream_too_short s
    else ok (record s { bytes_left = size }) (record s { bytes_left = s.bytes_left - size })

unfoldable pub pb_make_string_substream : {S : Type 0} → Run (Istream S) (Istream S)
pb_make_string_substream = pb_decode_varint32 >>= cut_substream

-- The read of what the substream has left; then the stream takes over its state and message.
unfoldable pub hand_back : {S : Type 0} → Outcome (Istream S) (List ℕ) → Run (Istream S) (Unit {0})
hand_back (ok _ sub) s = ok tt (record s { input = sub.input; errmsg = sub.errmsg })
hand_back (fail sub) s = fail s

unfoldable pub pb_close_string_substream : {S : Type 0} → Istream S → Run (Istream S) (Unit {0})
pb_close_string_substream sub s =
    if sub.bytes_left == 0
    then hand_back (ok [] sub) s
    else hand_back (pb_skip sub.bytes_left sub) s

-- The varint case of `read_raw_value`: `buf` holds `*size` bytes, `room` more fit.
unfoldable pub raw_varint : {S : Type 0} → ℕ → List ℕ → Run (Istream S) (List ℕ)
raw_varint zero buf s = fail s
raw_varint (suc room) buf s = bind ((pb_read 1 >>= Istream.first_byte) s) λ byte s'.
    let more = raw_varint room (buf ++ (byte ∷ [])) s' in
    if bit_and byte 0x80 == 0 then ok (buf ++ (byte ∷ [])) s' else more

unfoldable pub read_raw_value : {S : Type 0} → ℕ → ℕ → Run (Istream S) (List ℕ)
read_raw_value wire_type max_size =
    if wire_type == wt_varint
    then raw_varint max_size []
    else if wire_type == wt_64bit
    then pb_read 8
    else if wire_type == wt_32bit
    then pb_read 4
    else Istream.return_error invalid_wire_type
