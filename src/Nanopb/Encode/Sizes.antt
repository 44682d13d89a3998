-- ===== src/Nanopb/Encode/Sizes.antt =====
-- `pb_encode`, `pb_get_encoded_size`, `pb_encode_delimited` and `pb_encode_nullterminated` of
-- pb_encode.c, on streams.
use social_timeline.Common.{ℕ, ◌^◌, ◌≤◌, ◌<◌, ◌≡◌, refl, arith, ◌∙◌, ap, sym, subst}
use social_timeline.Common.{
  none, some, List, [], ◌∷◌, ◌++◌, length, take, drop, length-take, take-append-drop,
}
use social_timeline.Nanopb.Outcome.{ok, Run}
use social_timeline.Nanopb.Ostream.{
  Ostream, Buffer, pb_write, pb_ostream_from_buffer, sizing_stream, advance,
}
use social_timeline.Nanopb.Ostream.Bounds.{holding}
use social_timeline.Nanopb.Wire.Encode.{Encodes, Encodes-then, Encodes-write}
use social_timeline.Nanopb.Field.{Field}
use social_timeline.Nanopb.Encode.Message.{
  pb_encode, pb_encode_submessage, pb_encode_delimited, pb_encode_nullterminated, encoded_size,
  pb_get_encoded_size,
}
use social_timeline.Nanopb.Encode.Spec.{Bytes, string, message_bytes}
use social_timeline.Nanopb.Encode.Submessage.{encode_submessage-Encodes}
use social_timeline.Nanopb.Encode.Values.{Refines, encoded, refused}
use social_timeline.Nanopb.Encode.Refines.{Setting, program, content, pb_encode-Refines}

Refines-Encodes :
    (e : Run (Ostream Buffer) (Unit {0})) (a : Bytes) (bytes : List ℕ)
    → Refines e a
    → a ≡ some bytes
    → Encodes e bytes
Refines-Encodes e _ bytes refused same = absurd cc
Refines-Encodes e _ bytes (encoded bytes' p) same =
    subst (λ b. Encodes e b) (let h : bytes' ≡ bytes = cc in h) p

-- What is encoded to `bytes` on any stream fills a buffer with just those.
fill_with_encoded :
    (e : Run (Ostream Buffer) (Unit {0})) (bytes memory : List ℕ) (bufsize : ℕ)
    → Encodes e bytes
    → length bytes ≤ bufsize
    → bufsize ≤ length memory
    → bufsize < 2 ^ 64
    → e (pb_ostream_from_buffer memory bufsize)
      ≡ ok tt (holding bytes (drop (length bytes) memory) bufsize (length bytes) none)
unfolding pb_ostream_from_buffer
fill_with_encoded e bytes memory bufsize encodes fits inside small =
    let hole = take (length bytes) memory in
    ap (λ l. e (holding [] l bufsize 0 none)) (sym (take-append-drop (length bytes) memory))
    ∙ encodes.0 [] hole (drop (length bytes) memory) bufsize 0
        (omega (arith, length-take (length bytes) memory)) (omega arith) small
    ∙ ap (λ (k : ℕ). ok tt (holding bytes (drop (length bytes) memory) bufsize k none))
        (omega arith)

module _ (setting : Setting) (depth : ℕ) (fields : List Field) (src : ℕ) (bytes : List ℕ)
    (meant : message_bytes (content setting) depth fields src ≡ some bytes) where
  pub pb_encode-Encodes : Encodes (pb_encode (program setting) depth fields src) bytes
  pb_encode-Encodes = Refines-Encodes _ _ bytes (pb_encode-Refines setting depth fields src) meant

  -- Where `message_bytes` gives the bytes of a message, `pb_encode` puts just those into a buffer that
  -- has room for them, with what lay behind them left as it was.
  pub pb_encode_into_buffer :
      (memory : List ℕ) (bufsize : ℕ)
      → length bytes ≤ bufsize
      → bufsize ≤ length memory
      → bufsize < 2 ^ 64
      → pb_encode (program setting) depth fields src (pb_ostream_from_buffer memory bufsize)
        ≡ ok tt (holding bytes (drop (length bytes) memory) bufsize (length bytes) none)
  pb_encode_into_buffer memory bufsize =
      fill_with_encoded (pb_encode (program setting) depth fields src) bytes memory bufsize
        pb_encode-Encodes

  -- `pb_get_encoded_size` finds the number of the bytes that the message is meant to be encoded to, if
  -- that is less than 2 ^ 64.
  pub pb_get_encoded_size-bytes :
      (null : Buffer)
      → length bytes < 2 ^ 64
      → pb_get_encoded_size (program setting) null depth fields src ≡ some (length bytes)
  unfolding pb_get_encoded_size sizing_stream advance
  pb_get_encoded_size-bytes null small =
      ap encoded_size (pb_encode-Encodes.1 (sizing_stream null) refl (omega arith) small)
      ∙ ap (λ (k : ℕ). some k) (omega arith)

  -- `pb_encode_delimited` writes the length of those bytes and then the bytes; a sizing stream counts
  -- both.
  pub pb_encode_delimited-Encodes :
      Encodes (pb_encode_delimited (program setting) depth fields src) (string bytes)
  unfolding pb_encode_delimited pb_encode_submessage
  pb_encode_delimited-Encodes = encode_submessage-Encodes _ bytes pb_encode-Encodes

  pub pb_encode_delimited_into_buffer :
      (memory : List ℕ) (bufsize : ℕ)
      → length (string bytes) ≤ bufsize
      → bufsize ≤ length memory
      → bufsize < 2 ^ 64
      → let rest = drop (length (string bytes)) memory in
        pb_encode_delimited
          (program setting)
          depth
          fields
          src
          (pb_ostream_from_buffer memory bufsize)
        ≡ ok tt (holding (string bytes) rest bufsize (length (string bytes)) none)
  pb_encode_delimited_into_buffer memory bufsize =
      fill_with_encoded (pb_encode_delimited (program setting) depth fields src) (string bytes)
        memory bufsize pb_encode_delimited-Encodes

  -- `pb_encode_nullterminated` writes those bytes and a zero behind them; a sizing stream counts both.
  pub pb_encode_nullterminated-Encodes :
      Encodes (pb_encode_nullterminated (program setting) depth fields src) (bytes ++ (0 ∷ []))
  unfolding pb_encode_nullterminated
  pb_encode_nullterminated-Encodes =
      Encodes-then (pb_encode (program setting) depth fields src) (pb_write (0 ∷ []) 1) bytes
        (0 ∷ []) pb_encode-Encodes (Encodes-write (0 ∷ []))
