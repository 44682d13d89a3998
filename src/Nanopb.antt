-- ===== src/Nanopb.antt =====
-- nanopb 0.3.9.1, the Protocol Buffers runtime in C (Timeline/Pods/nanopb), as the app builds it:
-- PB_FIELD_32BIT, PB_ENABLE_MALLOC and PB_NO_PACKED_STRUCTS are set, the other options are not.
pub mod Outcome
pub mod Ostream
pub mod Istream
pub mod Varint
pub mod Wire
pub mod Field
pub mod Memory
pub mod Heap
pub mod Encode
pub mod Decode
mod Runs
