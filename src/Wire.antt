-- ===== src/Wire.antt =====
-- operavirus-commons: the messages of the six queues and how they travel.
pub mod Bytes
pub mod Types
pub mod Encode
pub mod Decode
pub mod Readers
pub mod RoundTrip
pub mod Payload
pub mod Frame
