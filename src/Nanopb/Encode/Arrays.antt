-- ===== src/Nanopb/Encode/Arrays.antt =====
-- Packed and unpacked arrays (`encode_array` of pb_encode.c).
use social_timeline.Common.{ℕ, zero, suc, ◌+◌, ◌*◌, ◌^◌, ◌<◌, ◌≡◌, refl, arith, ◌∙◌, ap}
use social_timeline.Common.{
  true, none, some, List, [], inl, inr, length, length-append, ◌==◌, Bool-cases,
}
use social_timeline.Nanopb.Outcome.{ok, bind, ◌>>◌, ◌>>=◌}
use social_timeline.Nanopb.Ostream.{Ostream, Buffer, sizing_stream, advance}
use social_timeline.Nanopb.Ostream.Bounds.{pb_write_sizing}
use social_timeline.Nanopb.Varint.{pb_encode_varint}
use social_timeline.Nanopb.Varint.Bytes.{varint}
use social_timeline.Nanopb.Wire.Encode.{Encodes, Encodes-then, pb_encode_varint-Encodes}
use social_timeline.Nanopb.Field.{Field, ltype, ltype_fixed32, ltype_fixed64}
use social_timeline.Nanopb.Encode.Scalars.{Encoder}
use social_timeline.Nanopb.Encode.Nested.{is_sizing}
use social_timeline.Nanopb.Encode.Fields.{for_entries, sized, packed_size, write_packed}
use social_timeline.Nanopb.Encode.Spec.{Bytes, both, string, prefixed, entries}
use social_timeline.Nanopb.Encode.Submessage.{Encodes-small, Encodes-cong}
use social_timeline.Nanopb.Encode.Values.{Refines, encoded, refused}

write_packed-Encodes :
    (func : Encoder Buffer) (field : Field) (count p : ℕ) (body : List ℕ)
    → Encodes (for_entries (func field) field.data_size count p) body
    → Encodes (write_packed func field count p (length body)) body
unfolding write_packed
write_packed-Encodes func field count p body (emits, sizes) = (
  λ done hole rest max n h room small. emits done hole rest max n h room small,
  λ s no_callback bounded small.
      let sizing : is_sizing s.callback ≡ true = ap is_sizing no_callback in
      rw sizing (pb_write_sizing [] (length body) s no_callback),
)

-- The sizing pass, or the product for values of a fixed width, gives the number of bytes.
packed_size_lem :
    (func : Encoder Buffer) (field : Field) (count p : ℕ) (body : List ℕ)
    → Encodes (for_entries (func field) field.data_size count p) body
    → (ltype field.type ≡ ltype_fixed32 → length body ≡ 4 * count)
    → (ltype field.type ≡ ltype_fixed64 → length body ≡ 8 * count)
    → length body < 2 ^ 64
    → (s : Ostream Buffer) → packed_size func field count p s ≡ ok (length body) s
unfolding packed_size sized sizing_stream advance
packed_size_lem func field count p body (emits, sizes) four eight small s =
    elim (Bool-cases (ltype field.type == ltype_fixed32)) [
      | inl is32 ↦
          let total = four (ground arith) in rw is32 (ap (λ (k : ℕ). ok k s) (omega (arith, total)))
      | inr not32 ↦ elim (Bool-cases (ltype field.type == ltype_fixed64)) [
        | inl is64 ↦
            let total = eight (ground arith) in
            rw (not32, is64) (ap (λ (k : ℕ). ok k s) (omega (arith, total)))
        | inr not64 ↦
            rw (not32, not64)
              (ap (sized s) (sizes (sizing_stream s.state) refl (omega arith) small)
                ∙ ap (λ (k : ℕ). ok k s) (omega arith))
      ]
    ]

-- The packed entries, behind their length.
pub packed-Encodes :
    (func : Encoder Buffer) (field : Field) (count p : ℕ) (body : List ℕ)
    → Encodes (for_entries (func field) field.data_size count p) body
    → (ltype field.type ≡ ltype_fixed32 → length body ≡ 4 * count)
    → (ltype field.type ≡ ltype_fixed64 → length body ≡ 8 * count)
    → Encodes
        (packed_size func field count p >>= λ size.
          pb_encode_varint size >> write_packed func field count p size)
        (string body)
packed-Encodes func field count p body loop four eight =
    let total = length-append (varint 9 (length body)) body in
    Encodes-small _ (string body) λ all_small.
      let small : length body < 2 ^ 64 = omega (arith, total) in
      Encodes-cong _
        (pb_encode_varint (length body) >> write_packed func field count p (length body))
        (string body)
        (λ s.
          ap (λ o. bind o λ size. pb_encode_varint size >> write_packed func field count p size)
            (packed_size_lem func field count p body loop four eight small s))
        (Encodes-then (pb_encode_varint (length body))
          (write_packed func field count p (length body)) _ body
          (pb_encode_varint-Encodes (length body) small)
          (write_packed-Encodes func field count p body loop))

-- Entries of one width.
abbrev pub HasWidth : ℕ → ℕ → Bytes → Type 0
HasWidth width count none = Unit {0}
HasWidth width count (some bytes) = length bytes ≡ width * count

both-HasWidth :
    (w n : ℕ) (a b : Bytes) → HasWidth w 1 a → HasWidth w n b → HasWidth w (suc n) (both a b)
both-HasWidth w n none b p q = tt
both-HasWidth w n (some a) none p q = tt
both-HasWidth w n (some a) (some b) p q = omega (arith, length-append a b)

pub entries-HasWidth :
    (width data_size count p : ℕ) (meant : ℕ → Bytes)
    → ((p : ℕ) → HasWidth width 1 (meant p))
    → HasWidth width count (entries meant data_size count p)
unfolding entries
entries-HasWidth width data_size zero p meant each = omega arith
entries-HasWidth width data_size (suc count) p meant each =
    both-HasWidth width count (meant p) _ (each p)
      (entries-HasWidth width data_size count (p + data_size) meant each)

-- What is behind the tag of a packed array.
pub packed-Refines :
    (func : Encoder Buffer) (field : Field) (count p : ℕ) (meant : Bytes)
    → Refines (for_entries (func field) field.data_size count p) meant
    → (ltype field.type ≡ ltype_fixed32 → HasWidth 4 count meant)
    → (ltype field.type ≡ ltype_fixed64 → HasWidth 8 count meant)
    → Refines
        (packed_size func field count p >>= λ size.
          pb_encode_varint size >> write_packed func field count p size)
        (prefixed meant)
packed-Refines func field count p _ refused four eight = refused
packed-Refines func field count p _ (encoded body loop) four eight =
    encoded (string body) (packed-Encodes func field count p body loop four eight)
