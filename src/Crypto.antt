-- ===== src/Crypto.antt =====
-- Envelopes and keys: capsules/hey-core/src/crypto.rs.
pub mod Kdf
pub mod Padding
pub mod Attachment
pub mod Envelope
mod Tests
mod EnvelopeTests
