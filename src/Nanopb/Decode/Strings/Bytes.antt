-- ===== src/Nanopb/Decode/Strings/Bytes.antt =====
-- `pb_dec_string` of pb_decode.c on a string that is stored in the structure.
use social_timeline.Common.{ℕ, suc, ◌+◌, ◌-◌, ◌^◌, ◌≤◌, ◌<◌, ◌≡◌, ◌≢◌, ◌⊎◌, refl, arith, ◌∙◌}
use social_timeline.Common.{true, false, Option, List, ◌++◌, length, ltb, ◌==◌, le→ltb, lt→ltb, u32}
use social_timeline.Nanopb.Outcome.{Errmsg, first_error, string_overflow, ok, fail}
use social_timeline.Nanopb.Istream.Reads.{pb_read_next}
use social_timeline.Nanopb.Varint.Bytes.{varint}
use social_timeline.Nanopb.Varint.Decode32.{pb_decode_varint32-varint}
use social_timeline.Nanopb.Field.{Field, atype, atype_pointer}
use social_timeline.Nanopb.Memory.{store_byte, store_bytes, bytes_at}
use social_timeline.Nanopb.Memory.Store.{store_bytes_other, bytes_at-cong, bytes_at-store_bytes}
use social_timeline.Nanopb.Heap.{Machine, Placement}
use social_timeline.Nanopb.Decode.State.{with_machine, on_stream, refuse, write_memory, read_into}
use social_timeline.Nanopb.Decode.Values.{decoding}
use social_timeline.Nanopb.Decode.Strings.{write_behind, read_string, room_for, pb_dec_string}

-- The memory with a string and its terminator.
abbrev pub with_string : Machine → ℕ → List ℕ → Machine
with_string x dest bytes = record x {
  memory = store_byte (store_bytes x.memory dest bytes) (dest + length bytes) 0;
}

-- What the memory holds behind a string of at most `data_size` bytes, its terminator included.
abbrev pub HoldsString : Machine → Machine → ℕ → ℕ → List ℕ → Type 0
HoldsString before after dest data_size bytes =
    (bytes_at after.memory (length bytes) dest ≡ bytes)
    × (after.memory (dest + length bytes) ≡ 0)
    × ((a : ℕ) → (a < dest) ⊎ (dest + data_size ≤ a) → after.memory a ≡ before.memory a)

with_string-HoldsString :
    (x : Machine) (dest data_size : ℕ) (bytes : List ℕ)
    → length bytes < data_size
    → HoldsString x (with_string x dest bytes) dest data_size bytes
with_string-HoldsString x dest data_size bytes h =
    let end = dest + length bytes in
    let stored = store_bytes x.memory dest bytes in
    let here : (end == end) ≡ true = ground arith in
    (
      bytes_at-cong (store_byte stored end 0) stored (length bytes) dest
            (λ a low high. let apart : (a == end) ≡ false = ground arith in rw apart)
          ∙ bytes_at-store_bytes x.memory dest bytes,
      rw here refl,
      λ a outside.
          let apart : (a == end) ≡ false = ground arith in
          rw apart (store_bytes_other x.memory dest bytes a (ground arith)),
    )

module _ {S : Type 0} (place : Placement) where
  -- `pb_dec_string` stores a string that has room in the structure with its terminator, from the bytes
  -- that `pb_enc_string` writes for it, if the stream has them left: the memory then holds the string and
  -- a 0 behind it, and nothing outside the field has changed.
  pub pb_dec_string-string :
      (field : Field) (dest n : ℕ) (bytes l : List ℕ) (err : Option Errmsg) (x : Machine)
      → atype field.type ≢ atype_pointer
      → length bytes < field.data_size
      → length bytes < 2 ^ 32 - 1
      → length (varint 9 (length bytes)) + length bytes ≤ n
      → (pb_dec_string {S = S} place field dest
            (decoding (varint 9 (length bytes) ++ (bytes ++ l)) n err x)
          ≡ ok tt (
              decoding l
                (n - length (varint 9 (length bytes)) - length bytes)
                err
                (with_string x dest bytes)))
        × HoldsString x (with_string x dest bytes) dest field.data_size bytes
  unfolding pb_dec_string on_stream with_machine room_for read_string read_into write_memory
      write_behind
  pb_dec_string-string field dest n bytes l err x static room small long =
      let size = length bytes in
      let left = n - length (varint 9 size) in
      let not_pointer : (atype field.type == atype_pointer) ≡ false = ground arith in
      let no_wrap : u32 (suc size) ≡ suc size = omega arith in
      let no_overflow : ltb (suc size) size ≡ false = ground arith in
      let fits : ltb field.data_size (suc size) ≡ false = le→ltb field.data_size (suc size) room in
      (
        rw (
          pb_decode_varint32-varint size n (bytes ++ l) err (omega arith) (omega arith),
          no_wrap,
          no_overflow,
          not_pointer,
          fits,
          pb_read_next {S = S} bytes l left err (omega arith),
        ),
        with_string-HoldsString x dest field.data_size bytes room,
      )

  -- A string that has no room in the structure with its terminator is refused with "string overflow",
  -- unless a message is set already, and the memory keeps its contents.
  pub pb_dec_string_too_long :
      (field : Field) (dest n size : ℕ) (l : List ℕ) (err : Option Errmsg) (x : Machine)
      → atype field.type ≢ atype_pointer
      → field.data_size ≤ size
      → size < 2 ^ 32 - 1
      → length (varint 9 size) ≤ n
      → pb_dec_string {S = S} place field dest (decoding (varint 9 size ++ l) n err x)
        ≡ fail (decoding l (n - length (varint 9 size)) (first_error err string_overflow) x)
  unfolding pb_dec_string on_stream with_machine room_for refuse
  pb_dec_string_too_long field dest n size l err x static large small long =
      let not_pointer : (atype field.type == atype_pointer) ≡ false = ground arith in
      let no_wrap : u32 (suc size) ≡ suc size = omega arith in
      let no_overflow : ltb (suc size) size ≡ false = ground arith in
      let over : ltb field.data_size (suc size) ≡ true =
        lt→ltb field.data_size (suc size) (omega arith) in
      rw (
        pb_decode_varint32-varint size n l err (omega arith) long,
        no_wrap,
        no_overflow,
        not_pointer,
        over,
      )
