-- ===== src/Nanopb/Decode/Allocate.antt =====
-- `allocate_field` and `initialize_pointer_field` of pb_decode.c, which a pointer field is given its
-- memory by.
pub mod Bounds
use social_timeline.Common.{
  ℕ, zero, suc, ◌-◌, ◌*◌, ◌/◌, ◌^◌, Bool, List, ◌&&◌, ◌||◌, ltb, leb, ◌==◌, if◌then◌else◌, u64,
}
use social_timeline.Nanopb.Outcome.{invalid_size, size_too_large, realloc_failed, Outcome, Run}
use social_timeline.Nanopb.Field.{
  Field, FieldIter, current, ltype, ltype_bytes, ltype_string, ltype_submessage,
}
use social_timeline.Nanopb.Memory.{Memory, load_pointer, store, fill}
use social_timeline.Nanopb.Heap.{Machine, Placement, pb_realloc}
use social_timeline.Nanopb.Decode.State.{Decoding, refuse, assign}
use social_timeline.Nanopb.Decode.Default.{pb_message_set_to_defaults}

-- `allocate_field` behind `pb_realloc`.
unfoldable pub keep_block :
    {S : Type 0} → ℕ → Decoding S → ℕ × Machine → Outcome (Decoding S) (Unit {0})
keep_block p_data d (zero, x) = refuse realloc_failed (record d { machine = x })
keep_block p_data d (suc p, x) = assign 8 p_data (suc p) (record d { machine = x })

-- The test for an overflow of `array_size * data_size`, which spares the division when both are small.
unfoldable pub overflows : ℕ → ℕ → Bool
overflows data_size array_size =
    (leb (2 ^ 32) data_size || leb (2 ^ 32) array_size) && ltb ((2 ^ 64 - 1) / array_size) data_size

unfoldable pub allocate_field : {S : Type 0} → Placement → ℕ → ℕ → ℕ → Run (Decoding S) (Unit {0})
unfolding keep_block
allocate_field place p_data data_size array_size d =
    if (data_size == 0) || (array_size == 0)
    then refuse invalid_size d
    else if overflows data_size array_size
    then refuse size_too_large d
    else keep_block p_data d (
        pb_realloc place (load_pointer d.machine.memory p_data) (u64 (array_size * data_size))
          d.machine)

-- A new item gets a null pointer, or the defaults of its submessage.
unfoldable pub initialize_pointer_field : (ℕ → List Field) → ℕ → ℕ → FieldIter → Memory → Memory
initialize_pointer_field descriptors depth item it m =
    let field = current it in
    if (ltype field.type == ltype_string) || (ltype field.type == ltype_bytes)
    then store m 8 item 0
    else if ltype field.type == ltype_submessage
    then pb_message_set_to_defaults descriptors depth (descriptors field.ptr) item
        (fill m item 0 field.data_size)
    else m
