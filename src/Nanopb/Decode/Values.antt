-- ===== src/Nanopb/Decode/Values.antt =====
-- The decoders of numbers against the bytes that the encoders of the same field write.
use social_timeline.Common.{ℕ, ◌-◌, ◌*◌, ◌%◌, ◌^◌, ◌≤◌, ◌<◌, ◌≡◌, arith, ◌∙◌, ap, ◌==◌}
use social_timeline.Common.{true, false, Option, List, ◌++◌, length}
use social_timeline.Nanopb.Outcome.{Errmsg, first_error, integer_too_large, Outcome, ok, fail, bind}
use social_timeline.Nanopb.Istream.Reads.{reading}
use social_timeline.Nanopb.Varint.{zigzag}
use social_timeline.Nanopb.Varint.Bytes.{varint}
use social_timeline.Nanopb.Varint.Decode64.{pb_decode_varint-varint}
use social_timeline.Nanopb.Varint.Zigzag.{pb_decode_svarint-varint}
use social_timeline.Nanopb.Wire.{fixed32_bytes, fixed64_bytes}
use social_timeline.Nanopb.Wire.Fixed.{pb_decode_fixed32-bytes, pb_decode_fixed64-bytes}
use social_timeline.Nanopb.Field.{Field}
use social_timeline.Nanopb.Memory.{load, store, sign_extend}
use social_timeline.Nanopb.Memory.Store.{load-unsigned}
use social_timeline.Nanopb.Heap.{Machine}
use social_timeline.Nanopb.Decode.State.{
  Decoding, with_machine, on_stream, refuse, write_memory, assign,
}
use social_timeline.Nanopb.Decode.Scalars.{
  as_signed, assign_signed, assign_unsigned, pb_dec_varint, pb_dec_uvarint, pb_dec_svarint,
  pb_dec_fixed32, pb_dec_fixed64,
}
use social_timeline.Nanopb.Decode.Sizes.{
  Size, one_byte, two_bytes, four_bytes, eight_bytes, as_signed-sign_extend, low_part,
  load-sign_extend, sign_extend-lt, Size-integer_size,
}

-- The decoder in front of `l`, with `n` bytes left.
abbrev pub decoding : {S : Type 0} → List ℕ → ℕ → Option Errmsg → Machine → Decoding S
decoding l n err m = record { stream = reading l n err; machine = m }

-- A number of `size` bytes has been decoded: it has been stored as `stored`, `n` bytes are left, and
-- the memory now holds it.
abbrev pub Decodes :
    {S : Type 0} → ℕ → ℕ → ℕ → ℕ → Machine → Decoding S → Outcome (Decoding S) (Unit {0}) → Type 0
Decodes size dest stored v m d result =
    (result ≡ ok tt (record d { machine = record m { memory = store m.memory size dest stored } }))
    × (load (store m.memory size dest stored) size dest ≡ v)

module _ {S : Type 0} where
  assign_signed_lem :
      (size dest v : ℕ) (d : Decoding S)
      → Size size
      → v < 256 ^ size
      → assign_signed size dest (sign_extend size v) d
        ≡ ok tt (record d {
          machine = record d.machine {
            memory = store d.machine.memory size dest (sign_extend size v);
          };
        })
  unfolding assign_signed assign write_memory
  assign_signed_lem size dest v d s h =
      let same : (sign_extend size v == sign_extend size v) ≡ true = ground arith in
      rw (Size-integer_size size s, low_part size v s h, same)

  assign_unsigned_lem :
      (size dest v : ℕ) (d : Decoding S)
      → Size size
      → v < 256 ^ size
      → assign_unsigned size dest v d
        ≡ ok tt (record d {
          machine = record d.machine { memory = store d.machine.memory size dest v };
        })
  unfolding assign_unsigned assign write_memory
  assign_unsigned_lem size dest v d s h =
      let same : (v % 2 ^ (8 * size) == v) ≡ true = whole size v s h in
      rw (Size-integer_size size s, same)
    where
      whole : (size v : ℕ) → Size size → v < 256 ^ size → (v % 2 ^ (8 * size) == v) ≡ true
      whole _ v one_byte h = ground arith
      whole _ v two_bytes h = ground arith
      whole _ v four_bytes h = ground arith
      whole _ v eight_bytes h = ground arith

  -- `pb_dec_varint` stores a signed number of 1, 2, 4 or 8 bytes, by its pattern `v`, from the bytes that
  -- `pb_enc_varint` writes for it, if the stream has them left; the memory then holds the number.
  pub pb_dec_varint-number :
      (field : Field) (dest v n : ℕ) (l : List ℕ) (err : Option Errmsg) (m : Machine)
      → Size field.data_size
      → v < 256 ^ field.data_size
      → length (varint 9 (sign_extend field.data_size v)) ≤ n
      → let bytes = varint 9 (sign_extend field.data_size v) in
        Decodes field.data_size dest
          (sign_extend field.data_size v)
          v
          m
          (decoding {S = S} l (n - length bytes) err m)
          (pb_dec_varint field dest (decoding (bytes ++ l) n err m))
  unfolding pb_dec_varint on_stream with_machine
  pb_dec_varint-number field dest v n l err m s h long =
      let w = sign_extend field.data_size v in
      (
        ap
              (λ o.
                bind (with_machine m o)
                  λ value. assign_signed field.data_size dest (as_signed field.data_size value))
              (pb_decode_varint-varint w n l err (sign_extend-lt field.data_size v s h) long)
            ∙ rw (as_signed-sign_extend field.data_size v s h) (
                assign_signed_lem field.data_size dest v
                  (decoding l (n - length (varint 9 w)) err m) s h),
        load-sign_extend m.memory field.data_size dest v s h,
      )

  -- `pb_dec_svarint` stores a signed number of 1, 2, 4 or 8 bytes, by its pattern `v`, from the bytes that
  -- `pb_enc_svarint` writes for it, if the stream has them left; the memory then holds the number.
  pub pb_dec_svarint-number :
      (field : Field) (dest v n : ℕ) (l : List ℕ) (err : Option Errmsg) (m : Machine)
      → Size field.data_size
      → v < 256 ^ field.data_size
      → length (varint 9 (zigzag (sign_extend field.data_size v))) ≤ n
      → let bytes = varint 9 (zigzag (sign_extend field.data_size v)) in
        Decodes field.data_size dest
          (sign_extend field.data_size v)
          v
          m
          (decoding {S = S} l (n - length bytes) err m)
          (pb_dec_svarint field dest (decoding (bytes ++ l) n err m))
  unfolding pb_dec_svarint on_stream with_machine
  pb_dec_svarint-number field dest v n l err m s h long =
      let w = sign_extend field.data_size v in
      (
        ap (λ o. bind (with_machine m o) λ value. assign_signed field.data_size dest value)
              (pb_decode_svarint-varint w n l err (sign_extend-lt field.data_size v s h) long)
            ∙ assign_signed_lem field.data_size dest v
                (decoding l (n - length (varint 9 (zigzag w))) err m) s h,
        load-sign_extend m.memory field.data_size dest v s h,
      )

  -- `pb_dec_uvarint` stores an unsigned number of 1, 2, 4 or 8 bytes from the bytes that
  -- `pb_enc_uvarint` writes for it, if the stream has them left; the memory then holds the number.
  pub pb_dec_uvarint-number :
      (field : Field) (dest v n : ℕ) (l : List ℕ) (err : Option Errmsg) (m : Machine)
      → Size field.data_size
      → v < 256 ^ field.data_size
      → length (varint 9 v) ≤ n
      → Decodes field.data_size dest v v m
          (decoding {S = S} l (n - length (varint 9 v)) err m)
          (pb_dec_uvarint field dest (decoding (varint 9 v ++ l) n err m))
  unfolding pb_dec_uvarint on_stream with_machine
  pb_dec_uvarint-number field dest v n l err m s h long = (
    ap (λ o. bind (with_machine m o) λ value. assign_unsigned field.data_size dest value)
          (pb_decode_varint-varint v n l err (below field.data_size s h) long)
        ∙ assign_unsigned_lem field.data_size dest v (decoding l (n - length (varint 9 v)) err m) s
            h,
    load-unsigned m.memory field.data_size dest v h,
  )
    where
      below : (size : ℕ) → Size size → v < 256 ^ size → v < 2 ^ 64
      below _ one_byte h = omega arith
      below _ two_bytes h = omega arith
      below _ four_bytes h = omega arith
      below _ eight_bytes h = omega arith

  -- A number that does not fit the field is refused with "integer too large", unless a message is set
  -- already; its low bytes have been stored by then.
  pub pb_dec_uvarint_too_large :
      (field : Field) (dest v n : ℕ) (l : List ℕ) (err : Option Errmsg) (m : Machine)
      → Size field.data_size
      → 256 ^ field.data_size ≤ v
      → v < 2 ^ 64
      → length (varint 9 v) ≤ n
      → pb_dec_uvarint field dest (decoding {S = S} (varint 9 v ++ l) n err m)
        ≡ fail (
            decoding l
              (n - length (varint 9 v))
              (first_error err integer_too_large)
              (record m { memory = store m.memory field.data_size dest v }))
  unfolding pb_dec_uvarint on_stream with_machine assign_unsigned assign write_memory refuse
  pb_dec_uvarint_too_large field dest v n l err m s large small long =
      ap (λ o. bind (with_machine m o) λ value. assign_unsigned field.data_size dest value)
        (pb_decode_varint-varint v n l err small long)
      ∙ rw (Size-integer_size field.data_size s, clamps field.data_size s large)
    where
      clamps : (size : ℕ) → Size size → 256 ^ size ≤ v → (v % 2 ^ (8 * size) == v) ≡ false
      clamps _ one_byte large = ground arith
      clamps _ two_bytes large = ground arith
      clamps _ four_bytes large = ground arith
      clamps _ eight_bytes large = ground arith

  -- `pb_dec_fixed32` stores a number of 32 bits from the bytes that `pb_enc_fixed32` writes for it, if
  -- the stream has them left; the memory then holds the number.
  pub pb_dec_fixed32-number :
      (field : Field) (dest v n : ℕ) (l : List ℕ) (err : Option Errmsg) (m : Machine)
      → v < 2 ^ 32
      → 4 ≤ n
      → Decodes 4 dest v v m
          (decoding {S = S} l (n - 4) err m)
          (pb_dec_fixed32 field dest (decoding (fixed32_bytes v ++ l) n err m))
  unfolding pb_dec_fixed32 on_stream with_machine assign write_memory
  pb_dec_fixed32-number field dest v n l err m h long = (
    ap (λ o. bind (with_machine m o) λ value. assign 4 dest value)
        (pb_decode_fixed32-bytes v n l err h long),
    load-unsigned m.memory 4 dest v (omega arith),
  )

  -- `pb_dec_fixed64` stores a number of 64 bits from the bytes that `pb_enc_fixed64` writes for it, if
  -- the stream has them left; the memory then holds the number.
  pub pb_dec_fixed64-number :
      (field : Field) (dest v n : ℕ) (l : List ℕ) (err : Option Errmsg) (m : Machine)
      → v < 2 ^ 64
      → 8 ≤ n
      → Decodes 8 dest v v m
          (decoding {S = S} l (n - 8) err m)
          (pb_dec_fixed64 field dest (decoding (fixed64_bytes v ++ l) n err m))
  unfolding pb_dec_fixed64 on_stream with_machine assign write_memory
  pb_dec_fixed64-number field dest v n l err m h long = (
    ap (λ o. bind (with_machine m o) λ value. assign 8 dest value)
        (pb_decode_fixed64-bytes v n l err h long),
    load-unsigned m.memory 8 dest v (omega arith),
  )
