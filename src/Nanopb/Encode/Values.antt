-- ===== src/Nanopb/Encode/Values.antt =====
-- The field encoders of pb_encode.c against the bytes that a value is meant to be encoded to.
use social_timeline.Common.{ℕ, zero, suc, ◌+◌, ◌*◌, ◌%◌, ◌^◌, ◌<◌, ◌≡◌, refl, arith, ap, subst}
use social_timeline.Common.{
  Bool, true, false, none, some, List, [], ◌++◌, ◌⊎◌, inl, inr, length, length-append, u64,
  if◌then◌else◌, Bool-cases,
}
use social_timeline.Common.Bits.{bit_or_shifted}
use native.Mathlib.Nat.{pow-suc}
use social_timeline.Nanopb.Outcome.{invalid_data_size, Run, ◌>>◌}
use social_timeline.Nanopb.Ostream
use social_timeline.Nanopb.Ostream.{Ostream, Buffer}
use social_timeline.Nanopb.Varint.{pb_encode_varint, pb_encode_svarint, zigzag}
use social_timeline.Nanopb.Varint.Bytes.{varint}
use social_timeline.Nanopb.Wire.{pb_encode_tag, pb_encode_string}
use social_timeline.Nanopb.Wire.Encode.{
  Encodes, Encodes-pure, Encodes-then, key, pb_encode_varint-Encodes, pb_encode_svarint-Encodes,
  pb_encode_string-Encodes,
}
use social_timeline.Nanopb.Field.{Field}
use social_timeline.Nanopb.Memory.{Memory, load, load_signed, sign_extend, bytes_at}
use social_timeline.Nanopb.Encode.Scalars.{
  pb_encode_tag_for_field, integer_size, pb_enc_varint, pb_enc_uvarint, pb_enc_svarint,
  pb_enc_bytes,
}
use social_timeline.Nanopb.Encode.Nested.{encode_submessage}
use social_timeline.Nanopb.Encode.Fields.{for_entries}
use social_timeline.Nanopb.Encode.Spec.{
  Bytes, both, string, prefixed, tag_with, tag_bytes, entries, bytes_value,
}
use social_timeline.Nanopb.Encode.Submessage.{Encodes-small, encode_submessage-Encodes}

-- Where bytes are meant, they are what is encoded.
pub data Refines (e : Run (Ostream Buffer) (Unit {0})) : Bytes → Type 0 where
  refused : Refines e none
  encoded : (bytes : List ℕ) → Encodes e bytes → Refines e (some bytes)

pub Refines-then :
    (e f : Run (Ostream Buffer) (Unit {0})) (a b : Bytes)
    → Refines e a
    → Refines f b
    → Refines (e >> f) (both a b)
Refines-then e f _ b refused q = refused
Refines-then e f _ _ (encoded a p) refused = refused
Refines-then e f _ _ (encoded a p) (encoded b q) = encoded (a ++ b) (Encodes-then e f a b p q)

pub Refines-if :
    (c : Bool) (e f : Run (Ostream Buffer) (Unit {0})) (a b : Bytes)
    → Refines e a
    → Refines f b
    → Refines (if c then e else f) (if c then a else b)
Refines-if true e f a b p q = p
Refines-if false e f a b p q = q

pub Refines-prefixed :
    (e : Run (Ostream Buffer) (Unit {0})) (a : Bytes)
    → Refines e a
    → Refines (encode_submessage e) (prefixed a)
Refines-prefixed e _ refused = refused
Refines-prefixed e _ (encoded bytes p) =
    encoded (string bytes) (encode_submessage-Encodes e bytes p)

-- A tag of any number, as its 64 bits have it.
pub pb_encode_tag-Refines :
    (wire_type : ℕ) (field : Field)
    → wire_type < 8
    → Refines (pb_encode_tag wire_type field.tag) (tag_with wire_type field)
unfolding pb_encode_tag
pb_encode_tag-Refines wire_type field h =
    let whole : u64 (field.tag * 8) ≡ field.tag % 2 ^ 61 * 8 = omega arith in
    rw (whole, bit_or_shifted 3 (field.tag % 2 ^ 61) wire_type h)
      (encoded _ (pb_encode_varint-Encodes (key wire_type (field.tag % 2 ^ 61)) (omega arith)))

pub pb_encode_tag_for_field-Refines :
    (field : Field) → Refines (pb_encode_tag_for_field field) (tag_bytes field)
unfolding pb_encode_tag_for_field tag_bytes
pb_encode_tag_for_field-Refines field =
    Refines-if _ _ _ _ _ (pb_encode_tag-Refines 0 field (omega arith)) (
      Refines-if _ _ _ _ _ (pb_encode_tag-Refines 5 field (omega arith)) (
        Refines-if _ _ _ _ _ (pb_encode_tag-Refines 1 field (omega arith))
          (Refines-if _ _ _ _ _ (pb_encode_tag-Refines 2 field (omega arith)) refused)))

-- An array of entries.
pub for_entries-Refines :
    (body : ℕ → Run (Ostream Buffer) (Unit {0})) (meant : ℕ → Bytes) (data_size count p : ℕ)
    → ((p : ℕ) → Refines (body p) (meant p))
    → Refines (for_entries body data_size count p) (entries meant data_size count p)
unfolding for_entries entries
for_entries-Refines body meant data_size zero p each = encoded [] Encodes-pure
for_entries-Refines body meant data_size (suc count) p each =
    Refines-then (body p) _ (meant p) _ (each p)
      (for_entries-Refines body meant data_size count (p + data_size) each)

-- Every cell of the memory holds a byte.
abbrev pub IsMemory : Memory → Type 0
IsMemory m = (a : ℕ) → m a < 256

module _ (m : Memory) (is_memory : IsMemory m) where
  pub load-lt : (n a : ℕ) → load m n a < 256 ^ n
  unfolding load
  load-lt zero a = omega arith
  load-lt (suc n) a = omega (arith, is_memory a, load-lt n (suc a), pow-suc 256 n)

  sizes : (n : ℕ) → integer_size n ≡ true → (n ≡ 1) ⊎ ((n ≡ 2) ⊎ ((n ≡ 4) ⊎ (n ≡ 8)))
  sizes n h = ground arith

  load-lt_64 : (n a : ℕ) → integer_size n ≡ true → load m n a < 2 ^ 64
  load-lt_64 n a h = elim (sizes n h) [
    | inl e ↦ rw e (omega (arith, load-lt 1 a))
    | inr (inl e) ↦ rw e (omega (arith, load-lt 2 a))
    | inr (inr (inl e)) ↦ rw e (omega (arith, load-lt 4 a))
    | inr (inr (inr e)) ↦ rw e (omega (arith, load-lt 8 a))
  ]

  load_signed-lt : (n a : ℕ) → integer_size n ≡ true → load_signed m n a < 2 ^ 64
  unfolding load_signed sign_extend
  load_signed-lt n a h = elim (sizes n h) [
    | inl e ↦ rw e (ground (arith, load-lt 1 a))
    | inr (inl e) ↦ rw e (ground (arith, load-lt 2 a))
    | inr (inr (inl e)) ↦ rw e (ground (arith, load-lt 4 a))
    | inr (inr (inr e)) ↦ rw e (ground (arith, load-lt 8 a))
  ]

  length-bytes_at : (n a : ℕ) → length (bytes_at m n a) ≡ n
  unfolding bytes_at
  length-bytes_at zero a = refl
  length-bytes_at (suc n) a = ap suc (length-bytes_at n (suc a))

  -- A string from the memory.
  pub string_at-Refines :
      (n a : ℕ) → Refines (pb_encode_string (bytes_at m n a) n) (some (string (bytes_at m n a)))
  string_at-Refines n a =
      let body = bytes_at m n a in
      let total = length-append (varint 9 (length body)) body in
      encoded (string body) (
        subst (λ k. Encodes (pb_encode_string body k) (string body)) (length-bytes_at n a)
          (Encodes-small _ (string body)
            λ small. pb_encode_string-Encodes body (omega (arith, total))))

  integer-Refines :
      (e : ℕ → Run (Ostream Buffer) (Unit {0})) (v n : ℕ) (bytes : List ℕ)
      → (integer_size n ≡ true → Encodes (e v) bytes)
      → Refines
          (if integer_size n then e v else Ostream.return_error invalid_data_size)
          (if integer_size n then some bytes else none)
  integer-Refines e v n bytes p = elim (Bool-cases (integer_size n)) [
    | inl good ↦ rw good (encoded bytes (p good))
    | inr bad ↦ rw bad refused
  ]

  pub pb_enc_varint-Refines :
      (field : Field) (src : ℕ)
      → Refines (pb_enc_varint m field src) (
          if integer_size field.data_size
          then some (varint 9 (load_signed m field.data_size src))
          else none)
  unfolding pb_enc_varint
  pb_enc_varint-Refines field src =
      integer-Refines pb_encode_varint _ field.data_size _
        λ good. pb_encode_varint-Encodes _ (load_signed-lt field.data_size src good)

  pub pb_enc_uvarint-Refines :
      (field : Field) (src : ℕ)
      → Refines (pb_enc_uvarint m field src) (
          if integer_size field.data_size
          then some (varint 9 (load m field.data_size src))
          else none)
  unfolding pb_enc_uvarint
  pb_enc_uvarint-Refines field src =
      integer-Refines pb_encode_varint _ field.data_size _
        λ good. pb_encode_varint-Encodes _ (load-lt_64 field.data_size src good)

  pub pb_enc_svarint-Refines :
      (field : Field) (src : ℕ)
      → Refines (pb_enc_svarint m field src) (
          if integer_size field.data_size
          then some (varint 9 (zigzag (load_signed m field.data_size src)))
          else none)
  unfolding pb_enc_svarint
  pb_enc_svarint-Refines field src =
      integer-Refines pb_encode_svarint _ field.data_size _ λ good. pb_encode_svarint-Encodes _

  pub pb_enc_bytes-Refines :
      (field : Field) (src : ℕ) → Refines (pb_enc_bytes m field src) (bytes_value m field src)
  unfolding pb_enc_bytes bytes_value
  pb_enc_bytes-Refines field src =
      Refines-if _ _ _ _ _ (encoded (string []) (pb_encode_string-Encodes [] (omega arith)))
        (Refines-if _ _ _ _ _ refused (string_at-Refines _ _))
