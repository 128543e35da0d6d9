-- ===== src/Fractal.antt =====
-- fractal and fractal/protocol: the messages between a superior and its collectors.
pub mod Base
pub mod Hex
pub mod BigInt
pub mod Json
pub mod Qualities
pub mod Proofs
pub mod Signatures
pub mod Message
pub mod RoundTrip
pub mod Rejects
pub mod Returns
pub mod Collector
pub mod Tests
