-- ===== src/Nanopb/Encode.antt =====
-- The message encoder of pb_encode.c, over the memory of a program.
pub mod Scalars
pub mod Default
pub mod Nested
pub mod Fields
pub mod Message
pub mod Spec
pub mod Submessage
pub mod Values
pub mod Arrays
pub mod Refines
pub mod Sizes
pub mod Pointers
mod Runs
