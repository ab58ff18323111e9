-- ===== src/Nanopb/Encode.antt =====
-- Messages: the encoder of BetweenUS/Pods/nanopb/pb_encode.c over field descriptors and memory.
pub mod Default
pub mod Value
pub mod Grow
pub mod Counts
pub mod Message
