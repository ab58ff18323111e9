-- ===== src/Nanopb/Examples.antt =====
-- The theorems about the nanopb model at concrete inputs.
mod Wire
mod Decode
mod Fields
mod Messages
