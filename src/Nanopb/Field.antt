-- ===== src/Nanopb/Field.antt =====
-- `pb_field_t` and `pb_type_t` of pb.h, and the field iterator of pb_common.c. A `pb_size_t` has 32
-- bits (PB_FIELD_32BIT). An address is a number; a `pb_ssize_t` is its 32-bit pattern.
pub mod Iterate
pub mod Find
pub mod Places
use social_timeline.Common.{
  ℕ, zero, suc, ◌+◌, ◌-◌, ◌*◌, ◌%◌, ◌^◌, Bool, true, false, not, List, [], ◌∷◌, ◌&&◌, bit_and,
  get_or, length,
}
use social_timeline.Common.{ltb, ◌==◌, if◌then◌else◌, u64}

-- `data_offset` is relative to the end of the field before, `size_offset` to the data. `ptr` is the
-- number of a message descriptor, or the address of a default value; 0 is a null pointer.
pub record Field : Type 0 where
  pub tag : ℕ
  pub type : ℕ
  pub data_offset : ℕ
  pub size_offset : ℕ
  pub data_size : ℕ
  pub array_size : ℕ
  pub ptr : ℕ

-- PB_LAST_FIELD.
abbrev pub last_field : Field
last_field = record {
  tag = 0;
  type = 0;
  data_offset = 0;
  size_offset = 0;
  data_size = 0;
  array_size = 0;
  ptr = 0;
}

-- PB_LTYPE, PB_HTYPE and PB_ATYPE.
abbrev pub ltype : ℕ → ℕ
ltype type = bit_and type 0x0F

abbrev pub htype : ℕ → ℕ
htype type = bit_and type 0x30

abbrev pub atype : ℕ → ℕ
atype type = bit_and type 0xC0

abbrev pub ltype_varint : ℕ
ltype_varint = 0x00

abbrev pub ltype_uvarint : ℕ
ltype_uvarint = 0x01

abbrev pub ltype_svarint : ℕ
ltype_svarint = 0x02

abbrev pub ltype_fixed32 : ℕ
ltype_fixed32 = 0x03

abbrev pub ltype_fixed64 : ℕ
ltype_fixed64 = 0x04

abbrev pub ltype_last_packable : ℕ
ltype_last_packable = 0x04

abbrev pub ltype_bytes : ℕ
ltype_bytes = 0x05

abbrev pub ltype_string : ℕ
ltype_string = 0x06

abbrev pub ltype_submessage : ℕ
ltype_submessage = 0x07

abbrev pub ltype_extension : ℕ
ltype_extension = 0x08

abbrev pub ltype_fixed_length_bytes : ℕ
ltype_fixed_length_bytes = 0x09

abbrev pub htype_required : ℕ
htype_required = 0x00

abbrev pub htype_optional : ℕ
htype_optional = 0x10

abbrev pub htype_repeated : ℕ
htype_repeated = 0x20

abbrev pub htype_oneof : ℕ
htype_oneof = 0x30

abbrev pub atype_static : ℕ
atype_static = 0x00

abbrev pub atype_callback : ℕ
atype_callback = 0x40

abbrev pub atype_pointer : ℕ
atype_pointer = 0x80

abbrev pub pb_size_max : ℕ
pb_size_max = 2 ^ 32 - 1

-- `(char*)address + offset` for a signed offset of 32 bits.
unfoldable pub add_offset : ℕ → ℕ → ℕ
add_offset address offset =
    if ltb offset (2 ^ 31) then address + offset else address + offset - 2 ^ 32

-- `pos` is an index into the array `start`.
pub record FieldIter : Type 0 where
  pub start : List Field
  pub pos : ℕ
  pub required_field_index : ℕ
  pub dest_struct : ℕ
  pub p_data : ℕ
  pub p_size : ℕ

-- `*iter->pos`
abbrev pub current : FieldIter → Field
current it = get_or it.start it.pos last_field

unfoldable pub pb_field_iter_begin : List Field → ℕ → FieldIter × Bool
unfolding add_offset
pb_field_iter_begin fields dest_struct =
    let first = get_or fields 0 last_field in
    let p_data = dest_struct + first.data_offset in
    (
      record {
        start = fields;
        pos = 0;
        required_field_index = 0;
        dest_struct = dest_struct;
        p_data = p_data;
        p_size = add_offset p_data first.size_offset;
      },
      not (first.tag == 0),
    )

-- The bytes of the structure that the previous field takes: `prev_size` behind the tests.
unfoldable pub field_extent : Field → ℕ
field_extent prev =
    if (atype prev.type == atype_static) && (htype prev.type == htype_repeated)
    then u64 (prev.data_size * prev.array_size)
    else if atype prev.type == atype_pointer
    then 8
    else prev.data_size

-- The iterator at the next field, which is not the terminator.
unfoldable pub step_over : Field → FieldIter → FieldIter
unfolding field_extent add_offset
step_over prev it =
    let next = get_or it.start (suc it.pos) last_field in
    let p_data = it.p_data + field_extent prev + next.data_offset in
    if (htype prev.type == htype_oneof)
      && ((htype next.type == htype_oneof) && (next.data_offset == pb_size_max))
    then record it { pos = suc it.pos }
    else record it {
      pos = suc it.pos;
      required_field_index =
          if htype prev.type == htype_required
          then suc it.required_field_index
          else it.required_field_index;
      p_data = p_data;
      p_size = add_offset p_data next.size_offset;
    }

unfoldable pub pb_field_iter_next : FieldIter → FieldIter × Bool
unfolding step_over pb_field_iter_begin
pb_field_iter_next it =
    let prev = current it in
    let next = get_or it.start (suc it.pos) last_field in
    if prev.tag == 0
    then (it, false)
    else if next.tag == 0
    then ((pb_field_iter_begin it.start it.dest_struct).0, false)
    else (step_over prev it, true)

-- The test of `pb_field_iter_find`.
unfoldable pub is_wanted : ℕ → Field → Bool
is_wanted tag f = (f.tag == tag) && not (ltype f.type == ltype_extension)

-- Its do-while loop, which ends after one turn round the array: the terminator gives it a round even for
-- a message without fields.
unfoldable pub find_loop : ℕ → ℕ → ℕ → FieldIter → FieldIter × Bool
find_loop zero start tag it = (it, false)
find_loop (suc fuel) start tag it =
    let next = (pb_field_iter_next it).0 in
    let again = find_loop fuel start tag next in
    if is_wanted tag (current it)
    then (it, true)
    else if next.pos == start
    then (next, false)
    else again

unfoldable pub pb_field_iter_find : ℕ → FieldIter → FieldIter × Bool
pb_field_iter_find tag it = find_loop (suc (length it.start)) it.pos tag it
