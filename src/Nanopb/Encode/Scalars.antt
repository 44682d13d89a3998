-- ===== src/Nanopb/Encode/Scalars.antt =====
-- The field encoders of pb_encode.c but that for submessages, and `pb_encode_tag_for_field`.
use social_timeline.Common.{ℕ, ◌+◌, ◌-◌, ◌^◌, Bool, [], ◌&&◌, ◌||◌, ltb, ◌==◌, if◌then◌else◌, u64}
use social_timeline.Nanopb.Outcome.{invalid_field_type, invalid_data_size, bytes_size_exceeded, Run}
use social_timeline.Nanopb.Ostream
use social_timeline.Nanopb.Ostream.{Ostream}
use social_timeline.Nanopb.Varint.{pb_encode_varint, pb_encode_svarint}
use social_timeline.Nanopb.Wire.{
  wt_varint, wt_64bit, wt_string, wt_32bit, pb_encode_tag, pb_encode_fixed32, pb_encode_fixed64,
  pb_encode_string,
}
use social_timeline.Nanopb.Field.{
  Field, ltype, atype, ltype_varint, ltype_uvarint, ltype_svarint, ltype_fixed32, ltype_fixed64,
  ltype_bytes, ltype_string, ltype_submessage, ltype_fixed_length_bytes, atype_static,
  atype_pointer,
}
use social_timeline.Nanopb.Memory.{
  Memory, load, load_signed, bytes_at, string_size, array_size, array_bytes,
}

-- `pb_encoder_t`: the field and the address of the value.
abbrev pub Encoder : Type 0 → Type 0
Encoder S = Field → ℕ → Run (Ostream S) (Unit {0})

-- The switch of `pb_encode_tag_for_field`.
unfoldable pub pb_encode_tag_for_field : {S : Type 0} → Field → Run (Ostream S) (Unit {0})
pb_encode_tag_for_field field =
    let t = ltype field.type in
    if (t == ltype_varint) || ((t == ltype_uvarint) || (t == ltype_svarint))
    then pb_encode_tag wt_varint field.tag
    else if t == ltype_fixed32
    then pb_encode_tag wt_32bit field.tag
    else if t == ltype_fixed64
    then pb_encode_tag wt_64bit field.tag
    else if (t == ltype_bytes)
        || ((t == ltype_string) || ((t == ltype_submessage) || (t == ltype_fixed_length_bytes)))
    then pb_encode_tag wt_string field.tag
    else Ostream.return_error invalid_field_type

-- The sizes that an integer field may have.
abbrev pub integer_size : ℕ → Bool
integer_size n = (n == 1) || ((n == 2) || ((n == 4) || (n == 8)))

-- `size` behind the loop of `pb_enc_string`. A pointer field has no limit but that of a `size_t`.
unfoldable pub enc_string_size : Memory → Field → ℕ → ℕ
enc_string_size m field src =
    if src == 0
    then 0
    else string_size m (if atype field.type == atype_pointer then 2 ^ 64 - 1 else field.data_size)
        src

module _ {S : Type 0} (m : Memory) where
  unfoldable pub pb_enc_varint : Encoder S
  pb_enc_varint field src =
      if integer_size field.data_size
      then pb_encode_varint (load_signed m field.data_size src)
      else Ostream.return_error invalid_data_size

  unfoldable pub pb_enc_uvarint : Encoder S
  pb_enc_uvarint field src =
      if integer_size field.data_size
      then pb_encode_varint (load m field.data_size src)
      else Ostream.return_error invalid_data_size

  unfoldable pub pb_enc_svarint : Encoder S
  pb_enc_svarint field src =
      if integer_size field.data_size
      then pb_encode_svarint (load_signed m field.data_size src)
      else Ostream.return_error invalid_data_size

  unfoldable pub pb_enc_fixed64 : Encoder S
  pb_enc_fixed64 field src = pb_encode_fixed64 (load m 8 src)

  unfoldable pub pb_enc_fixed32 : Encoder S
  pb_enc_fixed32 field src = pb_encode_fixed32 (load m 4 src)

  unfoldable pub pb_enc_bytes : Encoder S
  pb_enc_bytes field src =
      let size = array_size m src in
      if src == 0
      then pb_encode_string [] 0
      else if (atype field.type == atype_static) && ltb field.data_size (u64 (size + 4))
      then Ostream.return_error bytes_size_exceeded
      else pb_encode_string (bytes_at m size (array_bytes src)) size

  unfoldable pub pb_enc_string : Encoder S
  pb_enc_string field src =
      pb_encode_string (bytes_at m (enc_string_size m field src) src) (enc_string_size m field src)

  unfoldable pub pb_enc_fixed_length_bytes : Encoder S
  pb_enc_fixed_length_bytes field src =
      pb_encode_string (bytes_at m field.data_size src) field.data_size
