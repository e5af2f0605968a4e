-- ===== src/Kernel.antt =====
-- packages/kernel: the domain types and invariants.
pub mod Errors
pub mod World
pub mod Ids
pub mod Metadata
pub mod Provenance
pub mod Claim
pub mod Access
pub mod Authorization
pub mod Entity
pub mod Context
pub mod Decision
pub mod Events
pub mod Contracts
pub mod Invariants
