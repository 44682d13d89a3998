-- ===== src/Nanopb/Heap.antt =====
-- `pb_realloc` and `pb_free` of pb.h, which are `realloc` and `free`, over the memory of a program. Where
-- a block is placed, and whether there is room for it, is a parameter.
use social_timeline.Common.{
  ℕ, Bool, true, Option, none, some, List, [], ◌∷◌, ◌==◌, if◌then◌else◌, min,
}
use social_timeline.Nanopb.Memory.{Memory, copy}

-- A block that is allocated.
pub record Block : Type 0 where
  pub address : ℕ
  pub block_size : ℕ

-- The memory, the blocks in it, and whether the program has done what C does not allow: it has freed
-- or reallocated a pointer that is no block, or called a null function pointer.
pub record Machine : Type 0 where
  pub memory : Memory
  pub blocks : List Block
  pub misused : Bool

-- The address of a block of this size in place of the block at the given pointer, or `none` when the
-- allocation fails.
abbrev pub Placement : Type 0
Placement = List Block → ℕ → ℕ → Option ℕ

-- The size of the block at an address.
unfoldable pub block_at : List Block → ℕ → Option ℕ
block_at [] address = none
block_at (b ∷ blocks) address =
    if b.address == address then some b.block_size else block_at blocks address

-- The first block at an address is taken out.
unfoldable pub without : List Block → ℕ → List Block
without [] address = []
without (b ∷ blocks) address =
    let rest = without blocks address in if b.address == address then blocks else b ∷ rest

unfoldable pub free_block : ℕ → Machine → Option ℕ → Machine
free_block p machine none = record machine { misused = true }
free_block p machine (some size) = record machine { blocks = without machine.blocks p }

unfoldable pub pb_free : ℕ → Machine → Machine
pb_free p machine = if p == 0 then machine else free_block p machine (block_at machine.blocks p)

-- A new block, with what it keeps of `kept` bytes at `p`.
unfoldable pub move_block : ℕ → ℕ → ℕ → Machine → Option ℕ → ℕ × Machine
move_block p kept size machine none = (0, machine)
move_block p kept size machine (some fresh) = (
  fresh,
  record machine {
    memory = copy machine.memory fresh p (min kept size);
    blocks = record { address = fresh; block_size = size } ∷ without machine.blocks p;
  },
)

unfoldable pub resize_block : Placement → ℕ → ℕ → Machine → Option ℕ → ℕ × Machine
resize_block place p size machine none = (0, record machine { misused = true })
resize_block place p size machine (some kept) =
    move_block p kept size machine (place machine.blocks p size)

-- The pointer that `realloc` returns; a null pointer is a failure, and leaves the old block.
unfoldable pub pb_realloc : Placement → ℕ → ℕ → Machine → ℕ × Machine
pb_realloc place p size machine =
    if p == 0
    then move_block p 0 size machine (place machine.blocks p size)
    else resize_block place p size machine (block_at machine.blocks p)
