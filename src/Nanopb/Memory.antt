-- ===== src/Nanopb/Memory.antt =====
-- The memory that messages lie in, as pb_encode.c reads it through pointers: byte-addressed and
-- little-endian, with pointers of 64 bits and no padding inside the structures of pb.h. A number is
-- an address; 0 is the null pointer.
pub mod Extension
pub mod Store
use social_timeline.Common.{
  ℕ, zero, suc, ◌+◌, ◌-◌, ◌*◌, ◌/◌, ◌%◌, ◌^◌, Bool, true, false, List, [], ◌∷◌, leb, ltb, ◌&&◌,
  ◌==◌, if◌then◌else◌, not,
}
use social_timeline.Nanopb.Field.{Field}

-- The byte at each address.
abbrev pub Memory : Type 0
Memory = ℕ → ℕ

-- An unsigned integer of `size` bytes.
unfoldable pub load : Memory → ℕ → ℕ → ℕ
load m zero address = 0
load m (suc size) address = m address + 256 * load m size (suc address)

abbrev pub load_pointer : Memory → ℕ → ℕ
load_pointer m address = load m 8 address

abbrev pub load_size : Memory → ℕ → ℕ
load_size m address = load m 4 address

abbrev pub load_bool : Memory → ℕ → Bool
load_bool m address = not (m address == 0)

-- A signed integer of `size` bytes, by its pattern `v` of as many, converted to `int64_t`: the result
-- is the pattern of 64 bits.
unfoldable pub sign_extend : ℕ → ℕ → ℕ
sign_extend size v = if leb (2 ^ (8 * size - 1)) v then v + 2 ^ 64 - 2 ^ (8 * size) else v

unfoldable pub load_signed : Memory → ℕ → ℕ → ℕ
load_signed m size address = sign_extend size (load m size address)

-- A write of one byte.
abbrev pub store_byte : Memory → ℕ → ℕ → Memory
store_byte m address b a = if a == address then b else m a

-- A write of an unsigned integer of `size` bytes.
unfoldable pub store : Memory → ℕ → ℕ → ℕ → Memory
store m zero address v = m
store m (suc size) address v = store (store_byte m address (v % 256)) size (suc address) (v / 256)

-- `memset` and `memcpy` of `size` bytes.
unfoldable pub fill : Memory → ℕ → ℕ → ℕ → Memory
fill m dest b size a = if leb dest a && ltb a (dest + size) then b else m a

unfoldable pub copy : Memory → ℕ → ℕ → ℕ → Memory
copy m dest src size a = if leb dest a && ltb a (dest + size) then m (src + (a - dest)) else m a

-- A write of bytes.
unfoldable pub store_bytes : Memory → ℕ → List ℕ → Memory
store_bytes m address [] = m
store_bytes m address (b ∷ bytes) = store_bytes (store_byte m address b) (suc address) bytes

-- `count` bytes from an address on.
unfoldable pub bytes_at : Memory → ℕ → ℕ → List ℕ
bytes_at m zero address = []
bytes_at m (suc count) address = m address ∷ bytes_at m count (suc address)

-- The loop of `pb_enc_string`: the length of a string of at most `max_size` bytes.
unfoldable pub string_size : Memory → ℕ → ℕ → ℕ
string_size m zero p = 0
string_size m (suc max_size) p = elim (m p) [
  | zero ↦ 0
  | suc _ ↦ suc (string_size m max_size (suc p))
]

-- `size` and `bytes` of a `pb_bytes_array_t`.
abbrev pub array_size : Memory → ℕ → ℕ
array_size m p = load_size m p

abbrev pub array_bytes : ℕ → ℕ
array_bytes p = p + 4

-- `funcs` and `&arg` of a `pb_callback_t`.
abbrev pub funcs : Memory → ℕ → ℕ
funcs m p = load_pointer m p

abbrev pub arg : ℕ → ℕ
arg p = p + 8

-- What a message refers to by pointers: the descriptor arrays, and the functions of the program for
-- callback fields and extensions, over the output stream type `O`.
pub record Program (R : Type 0) : Type 0 where
  pub memory : Memory
  pub descriptors : ℕ → List Field
  pub callback_encode : ℕ → Field → ℕ → R
  pub extension_encode : ℕ → ℕ → R
