-- ===== src/Nanopb/Wire/Encode.antt =====
-- What the encoders of pb_encode.c put into a buffer that has room.
use social_timeline.Common.{ℕ, ◌+◌, ◌*◌, ◌^◌, ◌≤◌, ◌<◌, ◌≡◌, arith, ◌∙◌, ap, sym}
use social_timeline.Common.{
  none, List, [], ◌∷◌, ◌++◌, length, length-append, append_assoc, append-nil, take, drop,
  take-append-drop, length-take, length-drop, u64,
}
use social_timeline.Common.Bits.{bit_or_shifted}
use social_timeline.Nanopb.Outcome.{ok, Run, bind, pure, ◌>>◌}
use social_timeline.Nanopb.Ostream.{Ostream, Buffer, pb_write, advance}
use social_timeline.Nanopb.Ostream.Bounds.{holding, pb_write_fits, pb_write_sizing}
use social_timeline.Nanopb.Varint.{pb_encode_varint, pb_encode_svarint, zigzag}
use social_timeline.Nanopb.Varint.Bytes.{varint, varint_buffer-varint}
use social_timeline.Nanopb.Varint.Zigzag.{zigzag-lt}
use native.Mathlib.Nat.{add_assoc}
use social_timeline.Nanopb.Wire.{
  pb_encode_tag, fixed32_bytes, fixed64_bytes, pb_encode_fixed32, pb_encode_fixed64,
  pb_encode_string,
}

-- On every buffer stream with room for them, `e` stores these bytes and succeeds.
abbrev pub Emits : Run (Ostream Buffer) (Unit {0}) → List ℕ → Type 0
Emits e bytes =
    (done hole rest : List ℕ) (max n : ℕ)
    → length hole ≡ length bytes
    → n + length bytes ≤ max
    → max < 2 ^ 64
    → e (holding done (hole ++ rest) max n none)
      ≡ ok tt (holding (done ++ bytes) rest max (n + length bytes) none)

-- A sizing stream counts them.
abbrev pub Sizes : Run (Ostream Buffer) (Unit {0}) → List ℕ → Type 0
Sizes e bytes =
    (s : Ostream Buffer)
    → s.callback ≡ none
    → s.bytes_written < 2 ^ 64
    → length bytes < 2 ^ 64
    → e s ≡ ok tt (advance (length bytes) s)

abbrev pub Encodes : Run (Ostream Buffer) (Unit {0}) → List ℕ → Type 0
Encodes e bytes = Emits e bytes × Sizes e bytes

pub Encodes-write : (bytes : List ℕ) → Encodes (pb_write bytes (length bytes)) bytes
Encodes-write bytes = (
  λ done hole rest max n. pb_write_fits bytes done hole rest max n none,
  λ s no_callback bounded small. pb_write_sizing bytes (length bytes) s no_callback,
)

pub Encodes-pure : Encodes (pure tt) []
unfolding advance
Encodes-pure = (emits, sizes)
  where
    emits : Emits (pure tt) []
    emits done [] rest max n h room small =
        rw (append-nil done) (ap (λ (k : ℕ). ok tt (holding done rest max k none)) (omega arith))
    emits done (x ∷ hole) rest max n h room small = absurd (omega arith)

    sizes : Sizes (pure tt) []
    sizes s no_callback bounded small =
        ap (λ (k : ℕ). ok tt (record s { bytes_written = k })) (omega arith)

-- The hole is cut in two.
Emits-then :
    (e f : Run (Ostream Buffer) (Unit {0})) (a b : List ℕ)
    → Emits e a
    → Emits f b
    → Emits (e >> f) (a ++ b)
Emits-then e f a b p q done hole rest max n h room small =
    let first = take (length a) hole in
    let second = drop (length a) hole in
    let total = length-append a b in
    let cut : hole ++ rest ≡ first ++ (second ++ rest) =
      ap (λ l. l ++ rest) (sym (take-append-drop (length a) hole))
      ∙ append_assoc first second rest in
    ap (λ l. bind (e (holding done l max n none)) (λ _. f)) cut
    ∙ ap (λ o. bind o (λ _. f))
        (p done first (second ++ rest) max n (omega (arith, total, length-take (length a) hole))
          (omega (arith, total)) small)
    ∙ q (done ++ a) second rest max (n + length a)
        (omega (arith, total, length-drop (length a) hole)) (omega (arith, total)) small
    ∙ rw (append_assoc done a b, total, add_assoc)

Sizes-then :
    (e f : Run (Ostream Buffer) (Unit {0})) (a b : List ℕ)
    → Sizes e a
    → Sizes f b
    → Sizes (e >> f) (a ++ b)
unfolding advance
Sizes-then e f a b p q s no_callback bounded small =
    let total = length-append a b in
    ap (λ o. bind o (λ _. f)) (p s no_callback bounded (omega (arith, total)))
    ∙ q (advance (length a) s) no_callback (omega arith) (omega (arith, total))
    ∙ ap (λ (k : ℕ). ok tt (record s { bytes_written = k })) (omega (arith, total))

pub Encodes-then :
    (e f : Run (Ostream Buffer) (Unit {0})) (a b : List ℕ)
    → Encodes e a
    → Encodes f b
    → Encodes (e >> f) (a ++ b)
Encodes-then e f a b (p, p') (q, q') = (Emits-then e f a b p q, Sizes-then e f a b p' q')

-- `pb_encode_varint` writes the groups of seven bits of a 64-bit value, the lowest first; a sizing
-- stream counts them.
pub pb_encode_varint-Encodes : (v : ℕ) → v < 2 ^ 64 → Encodes (pb_encode_varint v) (varint 9 v)
unfolding pb_encode_varint
pb_encode_varint-Encodes v h = rw (varint_buffer-varint v h) (Encodes-write (varint 9 v))

pub pb_encode_svarint-Encodes : (v : ℕ) → Encodes (pb_encode_svarint v) (varint 9 (zigzag v))
unfolding pb_encode_svarint
pb_encode_svarint-Encodes v = pb_encode_varint-Encodes (zigzag v) (zigzag-lt v)

-- The number that stands for a tag.
abbrev pub key : ℕ → ℕ → ℕ
key wire_type tag = tag * 8 + wire_type

-- `pb_encode_tag` writes the number `tag * 8 + wire_type` as a varint; a sizing stream counts it.
pub pb_encode_tag-Encodes :
    (wire_type tag : ℕ)
    → wire_type < 8
    → tag < 2 ^ 61
    → Encodes (pb_encode_tag wire_type tag) (varint 9 (key wire_type tag))
unfolding pb_encode_tag
pb_encode_tag-Encodes wire_type tag hw ht =
    let whole : u64 (tag * 8) ≡ tag * 8 = omega arith in
    rw (whole, bit_or_shifted 3 tag wire_type hw)
      (pb_encode_varint-Encodes (key wire_type tag) (omega arith))

pub pb_encode_fixed32-Encodes : (v : ℕ) → Encodes (pb_encode_fixed32 v) (fixed32_bytes v)
unfolding pb_encode_fixed32
pb_encode_fixed32-Encodes v = unfold fixed32_bytes in Encodes-write (fixed32_bytes v)

pub pb_encode_fixed64-Encodes : (v : ℕ) → Encodes (pb_encode_fixed64 v) (fixed64_bytes v)
unfolding pb_encode_fixed64
pb_encode_fixed64-Encodes v = unfold fixed64_bytes in Encodes-write (fixed64_bytes v)

-- `pb_encode_string` writes the length and the bytes behind it; a sizing stream counts both.
pub pb_encode_string-Encodes :
    (bytes : List ℕ)
    → length bytes < 2 ^ 64
    → Encodes (pb_encode_string bytes (length bytes)) (varint 9 (length bytes) ++ bytes)
unfolding pb_encode_string
pb_encode_string-Encodes bytes h =
    Encodes-then (pb_encode_varint (length bytes)) (pb_write bytes (length bytes)) _ bytes
      (pb_encode_varint-Encodes (length bytes) h) (Encodes-write bytes)
