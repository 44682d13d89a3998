-- ===== src/Nanopb/Decode.antt =====
-- The message decoder of pb_decode.c, over the memory of a program: the decoders of numbers.
pub mod State
pub mod Scalars
pub mod Default
pub mod Release
pub mod Allocate
pub mod Strings
pub mod Nested
pub mod Static
pub mod Pointer
pub mod Callback
pub mod Fields
pub mod Required
pub mod Message
pub mod Takes
pub mod Rounds
pub mod Sizes
pub mod Values
mod Runs
mod FieldRuns
