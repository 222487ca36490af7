-- ===== src/Identity.antt =====
-- Keys as text: capsules/hey-core/src/identity.rs.
pub mod Hex
pub mod Base58
pub mod Signing
mod Tests
