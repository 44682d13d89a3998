-- ===== src/Nanopb/Encode/Submessage.antt =====
-- `pb_encode_submessage` of pb_encode.c: the message once for its size, and once behind it.
use social_timeline.Common.{ℕ, ◌+◌, ◌^◌, ◌<◌, ◌≡◌, refl, arith, ◌∙◌, ap}
use social_timeline.Common.{true, none, List, [], ◌++◌, length, length-append, u64, le→ltb, ◌==◌}
use social_timeline.Nanopb.Outcome.{Run, ◌>>◌}
use social_timeline.Nanopb.Ostream.{Ostream, Buffer, advance, sizing_stream}
use social_timeline.Nanopb.Ostream.Bounds.{holding, pb_write_sizing}
use social_timeline.Nanopb.Varint.{pb_encode_varint}
use social_timeline.Nanopb.Varint.Bytes.{varint}
use social_timeline.Nanopb.Wire.Encode.{
  Emits, Sizes, Encodes, Encodes-then, pb_encode_varint-Encodes,
}
use social_timeline.Nanopb.Encode.Nested.{
  is_sizing, after_substream, write_submessage, after_sizing, encode_submessage,
}
use social_timeline.Nanopb.Encode.Spec.{string}

-- Only bytes that a `size_t` can count are written.
pub Encodes-small :
    (e : Run (Ostream Buffer) (Unit {0})) (bytes : List ℕ)
    → (length bytes < 2 ^ 64 → Encodes e bytes)
    → Encodes e bytes
Encodes-small e bytes p = (
  λ done hole rest max n h room small. (p (omega arith)).0 done hole rest max n h room small,
  λ s no_callback bounded small. (p small).1 s no_callback bounded small,
)

-- Runs that agree on every stream encode the same.
pub Encodes-cong :
    (e f : Run (Ostream Buffer) (Unit {0})) (bytes : List ℕ)
    → ((s : Ostream Buffer) → e s ≡ f s)
    → Encodes f bytes
    → Encodes e bytes
Encodes-cong e f bytes same (p, q) = (
  λ done hole rest max n h room small. same _ ∙ p done hole rest max n h room small,
  λ s no_callback bounded small. same s ∙ q s no_callback bounded small,
)

write_submessage-Emits :
    (e : Run (Ostream Buffer) (Unit {0})) (bytes : List ℕ)
    → Emits e bytes
    → Emits (write_submessage e (length bytes)) bytes
unfolding write_submessage after_substream
write_submessage-Emits e bytes p done hole rest max n h room small =
    let no_wrap : u64 (n + length bytes) ≡ n + length bytes = omega arith in
    let whole : (0 + length bytes == length bytes) ≡ true = ground arith in
    let sum : u64 (n + (0 + length bytes)) ≡ n + length bytes = omega arith in
    rw (no_wrap, le→ltb max (n + length bytes) room)
      (ap (after_substream (length bytes) (holding done (hole ++ rest) max n none))
          (p done hole rest (length bytes) 0 h (omega arith) (omega arith))
        ∙ rw (whole, sum))

write_submessage-Sizes :
    (e : Run (Ostream Buffer) (Unit {0})) (bytes : List ℕ)
    → Sizes (write_submessage e (length bytes)) bytes
unfolding write_submessage
write_submessage-Sizes e bytes s no_callback bounded small =
    let sizing : is_sizing s.callback ≡ true = ap is_sizing no_callback in
    rw sizing (pb_write_sizing [] (length bytes) s no_callback)

-- The sizing pass finds the number of bytes.
sizing_pass :
    (e : Run (Ostream Buffer) (Unit {0})) (bytes : List ℕ)
    → Sizes e bytes
    → length bytes < 2 ^ 64
    → (s : Ostream Buffer)
    → encode_submessage e s
      ≡ (pb_encode_varint (length bytes) >> write_submessage e (length bytes)) s
unfolding encode_submessage after_sizing sizing_stream advance
sizing_pass e bytes q small s =
    let count : u64 (0 + length bytes) ≡ length bytes = omega arith in
    ap (after_sizing e s) (q (sizing_stream s.state) refl (omega arith) small) ∙ rw count

-- For a message that is encoded to `bytes`, `pb_encode_submessage` writes their length and the bytes,
-- and a sizing stream counts both.
pub encode_submessage-Encodes :
    (e : Run (Ostream Buffer) (Unit {0})) (bytes : List ℕ)
    → Encodes e bytes
    → Encodes (encode_submessage e) (string bytes)
encode_submessage-Encodes e bytes (p, q) =
    let total = length-append (varint 9 (length bytes)) bytes in
    Encodes-small (encode_submessage e) (string bytes) λ all_small.
      let small : length bytes < 2 ^ 64 = omega (arith, total) in
      Encodes-cong (encode_submessage e) _ (string bytes) (sizing_pass e bytes q small) (
        Encodes-then (pb_encode_varint (length bytes)) (write_submessage e (length bytes)) _ bytes
          (pb_encode_varint-Encodes (length bytes) small)
          (write_submessage-Emits e bytes p, write_submessage-Sizes e bytes))
