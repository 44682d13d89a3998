-- ===== src/Nanopb/Decode/Pointer/NoMemory.antt =====
-- `decode_pointer_field` of pb_decode.c on an array whose block cannot grow.
use social_timeline.Common.{ℕ, zero, suc, ◌*◌, ◌<◌, ◌≡◌, refl, arith, ◌∙◌, ap}
use social_timeline.Common.{
  false, Option, none, some, List, ◌||◌, ◌==◌, if◌then◌else◌, if-cases, u32, u64,
}
use social_timeline.Nanopb.Outcome.{Errmsg, Outcome, fail, Run, bind, succeeds, left}
use social_timeline.Nanopb.Field.{FieldIter, current, pb_size_max}
use social_timeline.Nanopb.Memory.{Memory, load, load_pointer, load_size, store}
use social_timeline.Nanopb.Memory.Store.{load-store_apart, load-unsigned}
use social_timeline.Nanopb.Heap.{
  Block, Machine, Placement, block_at, move_block, resize_block, pb_realloc,
}
use social_timeline.Nanopb.Decode.State.{
  Decoding, DecoderProgram, FieldDecoder, refuse, write_memory, assign,
}
use social_timeline.Nanopb.Decode.Allocate.{keep_block, overflows, allocate_field}
use social_timeline.Nanopb.Decode.Release.Again.{Apart}
use social_timeline.Nanopb.Decode.Static.{count_up}
use social_timeline.Nanopb.Decode.Pointer.{decode_last, decode_item}

-- A failure that leaves this memory and these blocks.
pub data Fails {S : Type 0} (m : Memory) (blocks : List Block)
    : Outcome (Decoding S) (Unit {0}) → Type 0 where
  fails :
      (d : Decoding S) → d.machine.memory ≡ m → d.machine.blocks ≡ blocks → Fails m blocks (fail d)

-- There is no room for any block.
abbrev pub NoMemory : Placement → Type 0
NoMemory place = (blocks : List Block) (p size : ℕ) → place blocks p size ≡ none

-- What `pb_realloc` does then.
abbrev Unchanged : Machine → ℕ × Machine → Type 0
Unchanged x (p, y) = (p ≡ 0) × (y.memory ≡ x.memory) × (y.blocks ≡ x.blocks)

resize_block-Unchanged :
    (place : Placement) (p size : ℕ) (x : Machine) (o : Option ℕ)
    → NoMemory place
    → Unchanged x (resize_block place p size x o)
unfolding resize_block move_block
resize_block-Unchanged place p size x none full = (refl, refl, refl)
resize_block-Unchanged place p size x (some kept) full =
    rw (full x.blocks p size) (refl, refl, refl)

pb_realloc-Unchanged :
    (place : Placement) (p size : ℕ) (x : Machine)
    → NoMemory place
    → Unchanged x (pb_realloc place p size x)
unfolding pb_realloc move_block
pb_realloc-Unchanged place p size x full =
    if-cases (Unchanged x) (p == 0) (move_block p 0 size x (place x.blocks p size))
      (resize_block place p size x (block_at x.blocks p))
      (rw (full x.blocks p size) (refl, refl, refl))
      (resize_block-Unchanged place p size x (block_at x.blocks p) full)

module _ {S : Type 0} where
  refuse-Fails :
      (msg : Errmsg) (d : Decoding S) → Fails d.machine.memory d.machine.blocks (refuse msg d)
  unfolding refuse
  refuse-Fails msg d = fails _ refl refl

  keep_block-Fails :
      (p_data : ℕ) (d : Decoding S) (r : ℕ × Machine)
      → Unchanged d.machine r
      → Fails d.machine.memory d.machine.blocks (keep_block p_data d r)
  unfolding keep_block refuse
  keep_block-Fails p_data d (zero, y) (null, memory, blocks) = fails _ memory blocks
  keep_block-Fails p_data d (suc p, y) (null, memory, blocks) = absurd (omega arith)

  allocate_field-Fails :
      (place : Placement) (p_data data_size array_size : ℕ) (d : Decoding S)
      → NoMemory place
      → Fails d.machine.memory d.machine.blocks (allocate_field place p_data data_size array_size d)
  unfolding allocate_field
  allocate_field-Fails place p_data data_size array_size d full =
      let r =
        pb_realloc place (load_pointer d.machine.memory p_data) (u64 (array_size * data_size))
          d.machine in
      if-cases (Fails d.machine.memory d.machine.blocks) ((data_size == 0) || (array_size == 0))
        (refuse Errmsg.invalid_size d)
        (if overflows data_size array_size
          then refuse Errmsg.size_too_large d
          else keep_block p_data d r)
        (refuse-Fails Errmsg.invalid_size d)
        (if-cases (Fails d.machine.memory d.machine.blocks) (overflows data_size array_size)
          (refuse Errmsg.size_too_large d) (keep_block p_data d r)
          (refuse-Fails Errmsg.size_too_large d)
          (keep_block-Fails p_data d r (pb_realloc-Unchanged place _ _ d.machine full)))

  bind-Fails :
      {m : Memory} {blocks : List Block} (o : Outcome (Decoding S) (Unit {0}))
      (k : Unit {0} → Run (Decoding S) (Unit {0}))
      → Fails m blocks o
      → Fails m blocks (bind o k)
  bind-Fails o k (fails d memory blocks) = fails d memory blocks

  -- What is left behind a failure.
  abbrev pub CountsOneMore : FieldIter → Decoding S → Outcome (Decoding S) (Unit {0}) → Type 0
  CountsOneMore it d result =
      (succeeds result ≡ false)
      × (load_size (left result).machine.memory it.p_size
          ≡ suc (load_size d.machine.memory it.p_size))
      × (load_pointer (left result).machine.memory it.p_data
          ≡ load_pointer d.machine.memory it.p_data)
      × ((left result).machine.blocks ≡ d.machine.blocks)

  Fails-CountsOneMore :
      (it : FieldIter) (d : Decoding S) (o : Outcome (Decoding S) (Unit {0}))
      → Apart it
      → load_size d.machine.memory it.p_size < pb_size_max
      → Fails
          (store d.machine.memory 4 it.p_size (u32 (suc (load_size d.machine.memory it.p_size))))
          d.machine.blocks
          o
      → CountsOneMore it d o
  Fails-CountsOneMore it d o apart small (fails d' memory blocks) =
      let size = load_size d.machine.memory it.p_size in
      let counted : u32 (suc size) ≡ suc size = omega arith in
      (
        refl,
        ap (λ m. load m 4 it.p_size) memory
            ∙ load-unsigned d.machine.memory 4 it.p_size (u32 (suc size)) (omega arith)
            ∙ counted,
        ap (λ m. load m 8 it.p_data) memory
            ∙ load-store_apart d.machine.memory 4 it.p_size (u32 (suc size)) 8 it.p_data apart,
        blocks,
      )

  -- When there is no memory, `decode_pointer_field` fails on the next entry of an array that is not packed,
  -- but it has counted the entry already: the array has one entry less than its count says.
  pub decode_item-NoMemory :
      (program : DecoderProgram S) (depth : ℕ) (func : FieldDecoder S) (it : FieldIter)
      (d : Decoding S)
      → NoMemory program.place
      → Apart it
      → load_size d.machine.memory it.p_size < pb_size_max
      → CountsOneMore it d (decode_item program depth func it d)
  unfolding decode_item count_up assign write_memory
  decode_item-NoMemory program depth func it d full apart small =
      let size = load_size d.machine.memory it.p_size in
      let d1 : Decoding S = record d {
        machine = record d.machine { memory = store d.machine.memory 4 it.p_size (u32 (suc size)) };
      } in
      let not_full : (size == pb_size_max) ≡ false = ground arith in
      Fails-CountsOneMore it d (decode_item program depth func it d) apart small (
        rw not_full (
          bind-Fails
            (allocate_field program.place it.p_data (current it).data_size
              (load_size d1.machine.memory it.p_size) d1)
            (λ _. decode_last program depth func it)
            (allocate_field-Fails program.place it.p_data (current it).data_size
              (load_size d1.machine.memory it.p_size) d1 full)))
