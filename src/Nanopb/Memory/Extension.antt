-- ===== src/Nanopb/Memory/Extension.antt =====
-- `pb_extension_t` and `pb_extension_type_t` of pb.h: the addresses and contents of the fields that
-- pb_encode.c and pb_decode.c read and write.
use social_timeline.Common.{ℕ, ◌+◌}
use social_timeline.Nanopb.Memory.{Memory, load_pointer}

abbrev pub extension_type : Memory → ℕ → ℕ
extension_type m p = load_pointer m p

abbrev pub dest : ℕ → ℕ
dest p = p + 8

abbrev pub next : Memory → ℕ → ℕ
next m p = load_pointer m (p + 16)

abbrev pub type_encode : Memory → ℕ → ℕ
type_encode m p = load_pointer m (extension_type m p + 8)

abbrev pub type_arg : Memory → ℕ → ℕ
type_arg m p = load_pointer m (extension_type m p + 16)

abbrev pub found : ℕ → ℕ
found p = p + 24

abbrev pub type_decode : Memory → ℕ → ℕ
type_decode m p = load_pointer m (extension_type m p)
