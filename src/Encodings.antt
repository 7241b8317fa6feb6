-- ===== src/Encodings.antt =====
-- lib/encodings.js: what goes on the network, over the codecs of compact-encoding.
pub mod Codec
pub mod Bytes
pub mod RoundTrip
pub mod Decision
pub mod Trailing
pub mod Records
pub mod RecordTrip
pub mod Header
pub mod Ids
pub mod Tests
