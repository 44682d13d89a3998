-- ===== src/Nanopb/Wire/Decode.antt =====
-- Tags and substreams, read from the bytes that the encoders write (pb_decode.c against pb_encode.c).
use social_timeline.Common.{ℕ, suc, ◌+◌, ◌-◌, ◌/◌, ◌^◌, ◌≤◌, ◌<◌, ◌≡◌, refl, arith, ◌∙◌, ap}
use social_timeline.Common.{
  true, false, Option, List, [], ◌∷◌, ◌++◌, length, bit_and, le→ltb, ltb, ◌==◌,
}
use social_timeline.Common.Bits.{bit_and_mask}
use social_timeline.Nanopb.Outcome.{Errmsg, end_of_stream, first_error, Outcome, ok, fail}
use social_timeline.Nanopb.Istream.{Istream}
use social_timeline.Nanopb.Istream.Reads.{reading, pb_skip_next, pb_readbyte_end}
use social_timeline.Nanopb.Varint.{after_first, pb_decode_varint32, pb_decode_varint32_eof}
use social_timeline.Nanopb.Varint.Bytes.{varint}
use social_timeline.Nanopb.Varint.Decode32.{pb_decode_varint32-varint}
use native.Mathlib.Nat.{le_refl}
use social_timeline.Nanopb.Wire.{
  after_tag, pb_decode_tag, cut_substream, pb_make_string_substream, hand_back,
  pb_close_string_substream,
}
use social_timeline.Nanopb.Wire.Encode.{key}

module _ {S : Type 0} where
  after_first-ok :
      (o : Outcome (Istream S) ℕ) (v : ℕ) (s : Istream S)
      → (after_first o).0 ≡ ok v s
      → after_first o ≡ (ok v s, false)
  unfolding after_first
  after_first-ok (fail s') v s e = cc
  after_first-ok (ok byte s') v s e = λ i. (e i, false)

  pub pb_decode_varint32_eof-varint :
      (v n : ℕ) (l : List ℕ) (err : Option Errmsg)
      → v < 2 ^ 32
      → length (varint 9 v) ≤ n
      → pb_decode_varint32_eof {S = S} (reading (varint 9 v ++ l) n err)
        ≡ (ok v (reading l (n - length (varint 9 v)) err), false)
  unfolding pb_decode_varint32
  pb_decode_varint32_eof-varint v n l err h long =
      after_first-ok _ v _ (pb_decode_varint32-varint v n l err h long)

  -- `pb_decode_tag` reads back a wire type below 8 and a tag from 1 to 2 ^ 29 - 1 from the bytes that
  -- `pb_encode_tag` writes, and does not report the end of the message.
  pub pb_decode_tag-key :
      (wire_type tag n : ℕ) (l : List ℕ) (err : Option Errmsg)
      → wire_type < 8
      → 0 < tag
      → tag < 2 ^ 29
      → length (varint 9 (key wire_type tag)) ≤ n
      → pb_decode_tag {S = S} (reading (varint 9 (key wire_type tag) ++ l) n err) ≡ (
        ok
            (record { wire_type = wire_type; tag = tag })
            (reading l (n - length (varint 9 (key wire_type tag))) err),
        false,
      )
  unfolding pb_decode_tag after_tag
  pb_decode_tag-key wire_type tag n l err hw pos ht long =
      let low : bit_and (key wire_type tag) 7 ≡ wire_type =
        omega (arith, bit_and_mask 3 (key wire_type tag)) in
      let high : key wire_type tag / 2 ^ 3 ≡ tag = omega arith in
      let nonzero : (key wire_type tag == 0) ≡ false = ground arith in
      ap after_tag (pb_decode_varint32_eof-varint (key wire_type tag) n l err (omega arith) long)
      ∙ rw (nonzero, low, high)

  -- A tag of 0 ends the message: the answer is false, with `*eof` set.
  pub pb_decode_tag_zero :
      (n : ℕ) (l : List ℕ) (err : Option Errmsg)
      → 0 < n
      → pb_decode_tag {S = S} (reading (0 ∷ l) n err) ≡ (fail (reading l (n - 1) err), true)
  unfolding pb_decode_tag after_tag varint
  pb_decode_tag_zero n l err h =
      ap after_tag (pb_decode_varint32_eof-varint 0 n l err (omega arith) h)

  -- At the end of the stream the answer is the same.
  pub pb_decode_tag_end :
      (l : List ℕ) (err : Option Errmsg)
      → pb_decode_tag {S = S} (reading l 0 err)
        ≡ (fail (reading l 0 (first_error err end_of_stream)), true)
  unfolding pb_decode_tag after_tag pb_decode_varint32_eof after_first
  pb_decode_tag_end l err = rw (pb_readbyte_end l err)

  -- On a string of less than 2 ^ 32 bytes that the stream has left, `pb_make_string_substream` gives a
  -- substream that ends with the string, and the stream goes on behind it.
  pub pb_make_string_substream_cut :
      (bytes l : List ℕ) (n : ℕ) (err : Option Errmsg)
      → length bytes < 2 ^ 32
      → length (varint 9 (length bytes)) + length bytes ≤ n
      → let left = n - length (varint 9 (length bytes)) in
        pb_make_string_substream {S = S} (reading (varint 9 (length bytes) ++ (bytes ++ l)) n err)
        ≡ ok
            (reading (bytes ++ l) (length bytes) err)
            (reading (bytes ++ l) (left - length bytes) err)
  unfolding pb_make_string_substream cut_substream
  pb_make_string_substream_cut bytes l n err h long =
      let left = n - length (varint 9 (length bytes)) in
      let room : ltb left (length bytes) ≡ false = le→ltb left (length bytes) (omega arith) in
      rw (pb_decode_varint32-varint (length bytes) n (bytes ++ l) err h (omega arith), room)

  -- Closing a substream that has `rest` left skips that: the stream goes on behind the string, with the
  -- message of the substream.
  pub pb_close_string_substream_skips :
      (rest l behind : List ℕ) (n : ℕ) (sub_err err : Option Errmsg)
      → pb_close_string_substream {S = S}
          (reading (rest ++ l) (length rest) sub_err)
          (reading behind n err)
        ≡ ok tt (reading l n sub_err)
  unfolding pb_close_string_substream hand_back
  pb_close_string_substream_skips [] l behind n sub_err err = refl
  pb_close_string_substream_skips (b ∷ rest) l behind n sub_err err =
      let some_left : (suc (length rest) == 0) ≡ false = ground arith in
      rw some_left (
        ap (λ o. hand_back o (reading behind n err))
          (pb_skip_next (b ∷ rest) l (length (b ∷ rest)) sub_err (le_refl (length (b ∷ rest)))))
