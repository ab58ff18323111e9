-- ===== src/Nanopb.antt =====
-- The nanopb runtime of BetweenUS/Pods/nanopb: protocol buffers in C.
pub mod Error
pub mod Input
pub mod Output
pub mod Wire
pub mod Field
pub mod Iter
pub mod Encode
pub mod Decode
pub mod Message
mod Examples
