-- ===== src/Nanopb/Wire.antt =====
-- What the encoders of pb_encode.c write, the decoders of pb_decode.c read back.
pub mod Groups
pub mod RoundTrip
pub mod Header
pub mod Fixed
pub mod Wrap
