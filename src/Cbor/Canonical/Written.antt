-- ===== src/Cbor/Canonical/Written.antt =====
-- `CheckCanonical` on what `Encode` writes, in parts: Parts (the reader on heads, strings and keys),
-- Keys (distinct
-- ones), Entries (of a map), Clean (which values pass), Maps, Values (on every value).
pub mod Parts
pub mod Keys
pub mod Entries
pub mod Clean
pub mod Maps
pub mod Values
