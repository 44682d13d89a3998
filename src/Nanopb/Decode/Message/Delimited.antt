-- ===== src/Nanopb/Decode/Message/Delimited.antt =====
-- `pb_decode_delimited` of pb_decode.c: the part of the stream that the message is decoded from, and what
-- is left behind it.
use social_timeline.Common.{ℕ, suc, ◌-◌, ◌^◌, ◌≤◌, ◌<◌, ◌≡◌, ◌≢◌, arith, ◌∙◌, ap}
use social_timeline.Common.{
  Bool, true, false, none, Option, List, [], ◌++◌, All, length, drop, length-append, append_assoc,
}
use social_timeline.Nanopb.Outcome.{Errmsg, Outcome, ok, fail, bind}
use social_timeline.Nanopb.Istream.Reads.{reading}
use social_timeline.Nanopb.Varint.Bytes.{varint}
use social_timeline.Nanopb.Wire.Decode.{
  pb_make_string_substream_cut, pb_close_string_substream_skips,
}
use social_timeline.Nanopb.Field.{Field}
use social_timeline.Nanopb.Field.Iterate.{HasTag, descriptor}
use social_timeline.Nanopb.Memory.{Memory, load}
use social_timeline.Nanopb.Ostream.{pb_ostream_from_buffer}
use social_timeline.Nanopb.Ostream.Bounds.{holding}
use social_timeline.Nanopb.Encode.Message.{pb_encode_delimited}
use social_timeline.Nanopb.Encode.Spec.{string}
use social_timeline.Nanopb.Encode.Refines.{Setting, program, content}
use social_timeline.Nanopb.Encode.Sizes.{pb_encode_delimited_into_buffer}
use social_timeline.Nanopb.Heap.{Machine}
use social_timeline.Nanopb.Decode.State.{
  Decoding, DecoderProgram, with_machine, on_stream, return_status, closing, in_substream,
}
use social_timeline.Nanopb.Decode.Values.{decoding}
use social_timeline.Nanopb.Decode.Message.{pb_decode, pb_decode_delimited}
use social_timeline.Nanopb.Decode.Message.Sequence.{field_at, entries_bytes}
use social_timeline.Nanopb.Decode.Message.Layout.{IsUnsigned, address, held}
use social_timeline.Nanopb.Decode.Message.RoundTrip.{message_bytes-held, pb_decode-held}

-- The answer `status`, and what is left.
abbrev returned : {S : Type 0} → Bool → Decoding S → Outcome (Decoding S) (Unit {0})
returned true d = ok tt d
returned false d = fail d

module _ {S : Type 0} where
  closing_skips :
      (status : Bool) (rest l before : List ℕ) (n : ℕ) (err err' : Option Errmsg) (x : Machine)
      → closing {S = S}
          (reading before n err)
          (returned status (decoding (rest ++ l) (length rest) err' x))
        ≡ returned status (decoding l n err' x)
  unfolding closing return_status
  closing_skips true rest l before n err err' x =
      ap (return_status true x) (pb_close_string_substream_skips rest l before n err' err)
  closing_skips false rest l before n err err' x =
      ap (return_status false x) (pb_close_string_substream_skips rest l before n err' err)

  -- In front of the length of a message and its bytes, `pb_decode_delimited` answers as `pb_decode` does on
  -- a stream that ends with these bytes. What that leaves of them is skipped, and the stream goes on with
  -- what lies behind them.
  pub pb_decode_delimited_skips :
      (program : DecoderProgram S) (depth : ℕ) (fields : List Field) (dest n : ℕ)
      (bytes rest l : List ℕ) (err err' : Option Errmsg) (x x' : Machine) (status : Bool)
      → length bytes < 2 ^ 32
      → length (string bytes) ≤ n
      → pb_decode program depth fields dest (decoding (bytes ++ l) (length bytes) err x)
        ≡ returned status (decoding (rest ++ l) (length rest) err' x')
      → pb_decode_delimited program depth fields dest (decoding (string bytes ++ l) n err x)
        ≡ returned status (decoding l (n - length (string bytes)) err' x')
  unfolding pb_decode_delimited on_stream with_machine in_substream
  pb_decode_delimited_skips program depth fields dest n bytes rest l err err' x x' status small long
        decoded =
      let prefix = varint 9 (length bytes) in
      let size = length-append prefix bytes in
      let behind = n - length prefix - length bytes in
      let same : behind ≡ n - length (string bytes) = omega (arith, size) in
      let message = pb_decode program depth fields dest in
      ap (λ bytes. pb_decode_delimited program depth fields dest (decoding bytes n err x))
        (append_assoc prefix bytes l)
      ∙ ap (λ o. bind (with_machine x o) (in_substream message))
          (pb_make_string_substream_cut {S = S} bytes l n err small (omega (arith, size)))
      ∙ ap (closing (reading (bytes ++ l) behind err)) decoded
      ∙ closing_skips status rest l (bytes ++ l) behind err err' x'
      ∙ ap (λ k. returned status (decoding l k err' x')) same

-- A message of up to 64 fields, which are all required and of unsigned types, that
-- `pb_encode_delimited` has put into a buffer is read back by `pb_decode_delimited` from a stream that
-- goes on behind it: it succeeds, the stream then goes on with what lies behind the message, and each
-- field of the structure at `dest` holds the number that the same field of the structure at `src` holds.
-- The fields have 1, 2, 4 or 8 bytes, no two have the same tag, which is below 2 ^ 29, `src` is not 0, the
-- message has less than 2 ^ 32 bytes, and the buffer has room for it with its length.
pub pb_decode_delimited-pb_encode_delimited :
    {S : Type 0} (setting : Setting) (decoder : DecoderProgram S) (depth depth' : ℕ)
    (fs behind : List Field) (src dest : ℕ) (buffer : List ℕ) (bufsize n : ℕ) (x : Machine)
    → All HasTag fs
    → ((j : ℕ) → j < length fs → IsUnsigned fs behind j)
    → 0 < length fs
    → length fs ≤ 64
    → src ≢ 0
    → let bytes = entries_bytes fs behind (held fs behind setting.memory src (length fs) 0) in
      length bytes < 2 ^ 32
      → length (string bytes) ≤ bufsize
      → bufsize ≤ length buffer
      → bufsize < 2 ^ 64
      → length (string bytes) ≤ n
      → let rest = drop (length (string bytes)) buffer in
        (pb_encode_delimited
            (program setting)
            (suc depth)
            (descriptor fs behind)
            src
            (pb_ostream_from_buffer buffer bufsize)
          ≡ ok tt (holding (string bytes) rest bufsize (length (string bytes)) none))
        × (m : Memory) × (pb_decode_delimited decoder
              (suc depth')
              (descriptor fs behind)
              dest
              (decoding {S = S} (string bytes ++ rest) n none x)
            ≡ ok tt (decoding rest (n - length (string bytes)) none (record x { memory = m })))
        × ((j : ℕ)
            → j < length fs
            → load m (field_at fs behind j).data_size (address fs behind dest j)
              ≡ load setting.memory (field_at fs behind j).data_size (address fs behind src j))
pb_decode_delimited-pb_encode_delimited setting decoder depth depth' fs behind src dest buffer
      bufsize n x all simple nonempty few somewhere small fits inside short long =
    let fields = descriptor fs behind in
    let bytes = entries_bytes fs behind (held fs behind setting.memory src (length fs) 0) in
    let rest = drop (length (string bytes)) buffer in
    let meant =
      message_bytes-held fs behind all simple (content setting) src somewhere depth nonempty in
    let (m, decoded, holds) =
      pb_decode-held decoder depth' fs behind setting.memory src dest rest x all simple
        setting.is_memory nonempty few in
    (
      pb_encode_delimited_into_buffer setting (suc depth) fields src bytes meant buffer bufsize fits
          inside short,
      m,
      pb_decode_delimited_skips decoder (suc depth') fields dest n bytes [] rest none none x
          (record x { memory = m }) true small long decoded,
      holds,
    )
