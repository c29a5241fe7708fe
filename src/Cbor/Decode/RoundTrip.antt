-- ===== src/Cbor/Decode/RoundTrip.antt =====
-- `Decode` after `Encode`, in parts: Sorting (the order of entries), Shape (the value that comes back), Parts,
-- Pairs, Maps and Values (the decoder on each kind's encoding), Fuel (the round trip),
-- Ordered (the order of its maps).
pub mod Sorting
pub mod Shape
pub mod Parts
pub mod Pairs
pub mod Maps
pub mod Values
pub mod Fuel
pub mod Ordered
pub mod Injective
pub mod Idempotent
