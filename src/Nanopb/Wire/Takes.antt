-- ===== src/Nanopb/Wire/Takes.antt =====
-- Reading varints, tags and the values of fields never adds to `bytes_left` of the stream, and a tag
-- takes a byte at least (pb_decode.c).
use social_timeline.Common.{ℕ, zero, suc, ◌+◌, ◌-◌, ◌/◌, ◌^◌, ◌≤◌, ◌<◌, arith}
use social_timeline.Common.{
  Bool, true, false, List, [], ◌∷◌, ◌++◌, ltb, leb, ◌==◌, ◌&&◌, if◌then◌else◌, if-cases, bit_and,
  bit_or, u8, u32, u64, ◌<<<◌,
}
use native.Mathlib.Nat.{le_refl, le_trans}
use social_timeline.Nanopb.Outcome.{Errmsg, Outcome, ok, fail, left}
use social_timeline.Nanopb.Outcome.Takes.{
  Takes, takes, at_most, Takes-bind, Takes-if, Takes-either, Takes-test, Takes-pure,
}
use social_timeline.Nanopb.Istream
use social_timeline.Nanopb.Istream.{Istream, pb_read, pb_skip, pb_readbyte}
use social_timeline.Nanopb.Istream.Takes.{
  bytes_left, return_error-Takes, pb_read-Takes, pb_skip-Takes, first_byte-Takes, pb_readbyte-Takes,
  TakesSome, lt-TakesSome, pb_readbyte-TakesSome,
}
use social_timeline.Nanopb.Varint.{
  varint_loop, pb_decode_varint, overflows32, varint32_loop, after_first, pb_decode_varint32_eof,
  pb_decode_varint32, skip_varint_loop, pb_skip_varint, pb_decode_svarint,
}
use social_timeline.Nanopb.Wire.{
  pb_decode_fixed32, pb_decode_fixed64, Tag, after_tag, pb_decode_tag, pb_skip_string,
  pb_skip_field, wt_varint, wt_64bit, wt_string, wt_32bit, cut_substream, pb_make_string_substream,
  raw_varint, read_raw_value,
}

module _ {S : Type 0} where
  varint_loop-Takes :
      (fuel bitpos result : ℕ) → Takes (bytes_left {S = S}) (varint_loop fuel bitpos result)
  unfolding varint_loop
  varint_loop-Takes zero bitpos result = return_error-Takes Errmsg.varint_overflow
  varint_loop-Takes (suc fuel) bitpos result =
      Takes-either (leb 64 bitpos) (return_error-Takes Errmsg.varint_overflow) (
        Takes-bind pb_readbyte-Takes λ byte.
          let result' = bit_or result (u64 (bit_and byte 0x7f <<< bitpos)) in
          Takes-either (bit_and byte 0x80 == 0) (Takes-pure result')
            (varint_loop-Takes fuel (u8 (bitpos + 7)) result'))

  pub pb_decode_varint-Takes : Takes (bytes_left {S = S}) pb_decode_varint
  unfolding pb_decode_varint
  pb_decode_varint-Takes = varint_loop-Takes 11 0 0

  pub pb_decode_svarint-Takes : Takes (bytes_left {S = S}) pb_decode_svarint
  unfolding pb_decode_svarint
  pb_decode_svarint-Takes = Takes-bind pb_decode_varint-Takes (λ value. Takes-pure _)

  varint32_loop-Takes :
      (fuel bitpos result : ℕ) → Takes (bytes_left {S = S}) (varint32_loop fuel bitpos result)
  unfolding varint32_loop
  varint32_loop-Takes zero bitpos result = return_error-Takes Errmsg.end_of_stream
  varint32_loop-Takes (suc fuel) bitpos result = Takes-bind pb_readbyte-Takes λ byte.
      let result' =
        if leb 32 bitpos then result else bit_or result (u32 (bit_and byte 0x7f <<< bitpos)) in
      Takes-either (leb 32 bitpos && overflows32 byte bitpos result)
        (return_error-Takes Errmsg.varint_overflow)
        (Takes-either (bit_and byte 0x80 == 0)
          (Takes-either (u8 (bitpos + 7) == 35 && (if bit_and byte 0x70 == 0 then false else true))
            (return_error-Takes Errmsg.varint_overflow) (Takes-pure result'))
          (varint32_loop-Takes fuel (u8 (bitpos + 7)) result'))

  pub pb_decode_fixed32-Takes : Takes (bytes_left {S = S}) pb_decode_fixed32
  unfolding pb_decode_fixed32
  pb_decode_fixed32-Takes = Takes-bind (pb_read-Takes 4) (λ bytes. Takes-pure _)

  pub pb_decode_fixed64-Takes : Takes (bytes_left {S = S}) pb_decode_fixed64
  unfolding pb_decode_fixed64
  pb_decode_fixed64-Takes = Takes-bind (pb_read-Takes 8) (λ bytes. Takes-pure _)

  after_first-Takes :
      (n : ℕ) (o : Outcome (Istream S) ℕ)
      → bytes_left (left o) ≤ n
      → bytes_left (left (after_first o).0) ≤ n
  unfolding after_first
  after_first-Takes n (fail s) h = h
  after_first-Takes n (ok byte s) h =
      le_trans
        (at_most
          (Takes-either (bit_and byte 0x80 == 0) (Takes-pure byte)
            (varint32_loop-Takes s.bytes_left 7 (bit_and byte 0x7f)))
          s)
        h

  pub pb_decode_varint32-Takes : Takes (bytes_left {S = S}) pb_decode_varint32
  unfolding pb_decode_varint32 pb_decode_varint32_eof
  pb_decode_varint32-Takes =
      takes λ s. after_first-Takes s.bytes_left (pb_readbyte s) (at_most pb_readbyte-Takes s)

  skip_varint_loop-Takes : (fuel : ℕ) → Takes (bytes_left {S = S}) (skip_varint_loop fuel)
  unfolding skip_varint_loop
  skip_varint_loop-Takes zero = return_error-Takes Errmsg.end_of_stream
  skip_varint_loop-Takes (suc fuel) =
      Takes-bind (Takes-bind (pb_read-Takes 1) first_byte-Takes)
        λ byte. Takes-either (bit_and byte 0x80 == 0) (Takes-pure tt) (skip_varint_loop-Takes fuel)

  pub pb_skip_field-Takes : (wire_type : ℕ) → Takes (bytes_left {S = S}) (pb_skip_field wire_type)
  unfolding pb_skip_field pb_skip_varint pb_skip_string
  pb_skip_field-Takes wire_type =
      Takes-if (wire_type == wt_varint)
        (takes λ s. at_most (skip_varint_loop-Takes (s.bytes_left + 1)) s)
        (Takes-if (wire_type == wt_64bit) (Takes-bind (pb_skip-Takes 8) (λ _. Takes-pure tt)) (
          Takes-if (wire_type == wt_string)
            (Takes-bind pb_decode_varint32-Takes
              λ length. Takes-bind (pb_skip-Takes length) (λ _. Takes-pure tt))
            (Takes-if (wire_type == wt_32bit) (Takes-bind (pb_skip-Takes 4) (λ _. Takes-pure tt))
              (return_error-Takes Errmsg.invalid_wire_type))))

  cut_substream-Takes : (size : ℕ) → Takes (bytes_left {S = S}) (cut_substream size)
  unfolding cut_substream
  cut_substream-Takes size =
      Takes-test (λ s. ltb s.bytes_left size) (Istream.return_error Errmsg.parent_stream_too_short)
        (λ s. ok (record s { bytes_left = size }) (record s { bytes_left = s.bytes_left - size }))
        (return_error-Takes Errmsg.parent_stream_too_short) (takes λ s. omega arith)

  pub pb_make_string_substream-Takes : Takes (bytes_left {S = S}) pb_make_string_substream
  unfolding pb_make_string_substream
  pb_make_string_substream-Takes = Takes-bind pb_decode_varint32-Takes cut_substream-Takes

  raw_varint-Takes : (room : ℕ) (buf : List ℕ) → Takes (bytes_left {S = S}) (raw_varint room buf)
  unfolding raw_varint
  raw_varint-Takes zero buf = takes λ s. le_refl s.bytes_left
  raw_varint-Takes (suc room) buf =
      Takes-bind (Takes-bind (pb_read-Takes 1) first_byte-Takes) λ byte.
        Takes-either (bit_and byte 0x80 == 0) (Takes-pure (buf ++ (byte ∷ [])))
          (raw_varint-Takes room (buf ++ (byte ∷ [])))

  pub read_raw_value-Takes :
      (wire_type max_size : ℕ) → Takes (bytes_left {S = S}) (read_raw_value wire_type max_size)
  unfolding read_raw_value
  read_raw_value-Takes wire_type max_size =
      Takes-if (wire_type == wt_varint) (raw_varint-Takes max_size []) (
        Takes-if (wire_type == wt_64bit) (pb_read-Takes 8) (
          Takes-if (wire_type == wt_32bit) (pb_read-Takes 4)
            (return_error-Takes Errmsg.invalid_wire_type)))

  after_first-TakesSome :
      (n : ℕ) (o : Outcome (Istream S) ℕ) → TakesSome n o → TakesSome n (after_first o).0
  unfolding after_first
  after_first-TakesSome n (fail s) h = tt
  after_first-TakesSome n (ok byte s) h =
      let more = varint32_loop s.bytes_left 7 (bit_and byte 0x7f) s in
      lt-TakesSome n (if bit_and byte 0x80 == 0 then ok byte s else more) (
        le_lt
          (at_most
            (Takes-either (bit_and byte 0x80 == 0) (Takes-pure byte)
              (varint32_loop-Takes s.bytes_left 7 (bit_and byte 0x7f)))
            s)
          h)
    where
      le_lt : {a b c : ℕ} → a ≤ b → b < c → a < c
      le_lt h h' = omega arith

  after_tag-TakesSome :
      (n : ℕ) (o : Outcome (Istream S) ℕ × Bool) → TakesSome n o.0 → TakesSome n (after_tag o).0
  unfolding after_tag
  after_tag-TakesSome n (fail s, eof) h = tt
  after_tag-TakesSome n (ok temp s, eof) h =
      if-cases (λ (o : Outcome (Istream S) Tag × Bool). TakesSome n o.0) (temp == 0) (fail s, true)
        (ok (record { wire_type = bit_and temp 7; tag = temp / 2 ^ 3 }) s, eof) tt h

  pub pb_decode_tag-TakesSome : (s : Istream S) → TakesSome s.bytes_left (pb_decode_tag s).0
  unfolding pb_decode_tag pb_decode_varint32_eof
  pb_decode_tag-TakesSome s =
      after_tag-TakesSome s.bytes_left (after_first (pb_readbyte s))
        (after_first-TakesSome s.bytes_left (pb_readbyte s) (pb_readbyte-TakesSome s))
