-- ===== src/Fields.antt =====
-- lib/fields.js: the codec of a type's fields.
pub mod Ref
pub mod Kinds
pub mod Codec
pub mod Entries
pub mod Ends
pub mod Written
pub mod Kept
pub mod Unknown
pub mod Values
pub mod Names
pub mod Reading
pub mod Trip
pub mod Tests
