-- ===== src/Core.antt =====
-- internal/core: the data model, the validation of a request for load, and the capacity search.
pub mod Server
pub mod Types
pub mod Captures
pub mod Ladder
pub mod Verdict
pub mod Search
pub mod Target
pub mod Validation
pub mod Provenance
pub mod Saturation
