-- ===== src/Nanopb/Decode.antt =====
-- Messages: the decoder of BetweenUS/Pods/nanopb/pb_decode.c over field descriptors and memory.
pub mod State
pub mod Reset
pub mod Value
pub mod Static
pub mod Pointer
pub mod Field
pub mod Seen
pub mod Required
pub mod Message
pub mod Stored
pub mod Scalars
pub mod Allocate
pub mod Reads
