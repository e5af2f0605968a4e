-- ===== src/Tests.antt =====
-- The properties at concrete inputs: the data in `Data`, and a child for each part.
pub mod Data
pub mod Access
pub mod Kernel
pub mod Memory
pub mod Ontology
pub mod Merges
pub mod Knowledge
pub mod Conflicts
pub mod Store
pub mod Policy
pub mod Decisions
pub mod Replay
pub mod Audit
pub mod Precedents
