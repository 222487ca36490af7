-- ===== src/Ratchet.antt =====
-- The Double Ratchet of a conversation: the part of capsules/hey-core/src/api/dms.rs from
-- `RatchetHeader` to `ratchet_step_recv`.
pub mod State
pub mod Steps
pub mod Chain
pub mod Stash
pub mod Order
pub mod Exchange
pub mod Bounds
pub mod Turn
mod Tests
