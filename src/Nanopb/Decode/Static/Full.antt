-- ===== src/Nanopb/Decode/Static/Full.antt =====
-- `decode_static_field` and `pb_release_single_field` of pb_decode.c on an array that is full.
use social_timeline.Common.{ℕ, suc, ◌+◌, ◌-◌, ◌^◌, ◌≤◌, ◌<◌, ◌≡◌, ◌⊎◌, refl, arith}
use social_timeline.Common.{true, leb, ltb, ◌==◌, if◌then◌else◌, u32}
use social_timeline.Nanopb.Outcome.{first_error, array_overflow, fail}
use social_timeline.Nanopb.Field.{FieldIter, current, htype, atype, htype_repeated, atype_static}
use social_timeline.Nanopb.Memory.{load_size, store}
use social_timeline.Nanopb.Memory.Store.{store_other, load-unsigned}
use social_timeline.Nanopb.Heap.{Machine}
use social_timeline.Nanopb.Decode.State.{Decoding, FieldDecoder, refuse, write_memory, assign}
use social_timeline.Nanopb.Decode.Release.{item_count}
use social_timeline.Nanopb.Decode.Static.{count_up, decode_entry}

-- However large the count of a static array is, `pb_release_single_field` releases at most `array_size`
-- items.
pub item_count_le :
    (it : FieldIter) (x : Machine)
    → atype (current it).type ≡ atype_static
    → htype (current it).type ≡ htype_repeated
    → item_count it x ≤ (current it).array_size
unfolding item_count
item_count_le it x static repeated =
    let is_static : (atype (current it).type == atype_static) ≡ true = ground arith in
    let is_repeated : (htype (current it).type == htype_repeated) ≡ true = ground arith in
    rw (is_static, is_repeated)
      (clamped
        (if it.p_size == it.p_data then (current it).array_size else load_size x.memory it.p_size)
        (current it).array_size)
  where
    clamped : (count n : ℕ) → (if ltb n count then n else count) ≤ n
    clamped count n = ground arith

module _ {S : Type 0} where
  -- An entry that an array of a static field has no room for is refused with "array overflow", unless a
  -- message is set already; no address but those of the count is written, and the count is one more.
  pub decode_entry_full :
      (func : FieldDecoder S) (it : FieldIter) (d : Decoding S)
      → (current it).array_size ≤ load_size d.machine.memory it.p_size
      → load_size d.machine.memory it.p_size < 2 ^ 32 - 1
      → let size = load_size d.machine.memory it.p_size in
        let m = store d.machine.memory 4 it.p_size (suc size) in
        (decode_entry func it d
          ≡ fail (record d {
            stream = record d.stream { errmsg = first_error d.stream.errmsg array_overflow };
            machine = record d.machine { memory = m };
          }))
        × (load_size m it.p_size ≡ suc size)
        × ((a : ℕ) → (a < it.p_size) ⊎ (it.p_size + 4 ≤ a) → m a ≡ d.machine.memory a)
  unfolding decode_entry count_up assign write_memory refuse
  decode_entry_full func it d full small =
      let size = load_size d.machine.memory it.p_size in
      let is_full : leb (current it).array_size size ≡ true = ground arith in
      let counted : u32 (suc size) ≡ suc size = omega arith in
      (
        rw (is_full, counted) refl,
        load-unsigned d.machine.memory 4 it.p_size (suc size) (omega arith),
        λ a outside. store_other d.machine.memory 4 it.p_size (suc size) a outside,
      )
