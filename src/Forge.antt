-- ===== src/Forge.antt =====
-- The deterministic validators of Forge: a new Unit, and its bank of contexts.
pub mod Codes
pub mod References
pub mod Fields
pub mod Units
pub mod Overlap
pub mod Contexts
