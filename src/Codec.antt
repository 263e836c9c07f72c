-- ===== src/Codec.antt =====
-- The framing of messages on a byte stream: the base classes of src/encoder.hpp and src/decoder.hpp,
-- and the ZMTP 1.0 and 2.0 framings.
pub mod Encoder
pub mod Decoder
pub mod V1
pub mod V2
pub mod Returns
mod Tests
