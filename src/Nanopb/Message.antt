-- ===== src/Nanopb/Message.antt =====
-- Messages of required scalar fields, from one memory through the bytes of pb_encode.c into another
-- through pb_decode.c.
pub mod Scalar
pub mod Encode
pub mod Decode
pub mod Loop
pub mod Complete
pub mod Layout
pub mod RoundTrip
pub mod Orders
pub mod Missing
pub mod AnyOrder
