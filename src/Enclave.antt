-- ===== src/Enclave.antt =====
-- services/pzdr-enclave/src/main.rs: the program in the enclave, its state, its handlers and its wire
-- format.
pub mod Crates
pub mod Wire
pub mod Machine
pub mod Admit
pub mod Session
pub mod Queries
pub mod Dispatch
pub mod Concluded
pub mod Recorded
pub mod Receipts
pub mod Admission
pub mod Refusals
pub mod Answers
pub mod Quiet
pub mod Requests
pub mod Sessions
pub mod Continuity
pub mod Halves
pub mod Steps
pub mod Interleaving
pub mod Boot
pub mod Small
mod Runs
mod BootRuns
mod SplitRuns
