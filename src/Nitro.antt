-- ===== src/Nitro.antt =====
-- crates/nitro-attestation/src/lib.rs: the parser and the verifier of attestation documents, and the calls
-- of the security module inside the enclave.
pub mod Formats
pub mod Attestation
pub mod Freshness
pub mod Armor
pub mod Chain
pub mod Issuing
pub mod Signing
pub mod Pool
pub mod Paths
pub mod Route
pub mod Decoded
pub mod Links
pub mod Trust
pub mod Order
pub mod Pem
pub mod Document
pub mod Parsing
pub mod Parsed
pub mod Verifier
pub mod Device
pub mod Entropy
pub mod Verified
pub mod Toy
mod StepRuns
mod Runs
