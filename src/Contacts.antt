-- ===== src/Contacts.antt =====
-- The contacts of the messenger: the contact record, its list and the rotation of inbound queues
-- (capsules/hey-core/src/api/dms.rs). Random values, the clock and SHA-256 are arguments. Times are
-- milliseconds since the epoch; the time stamp of a message, which the peer names, is a signed
-- integer. Counters are `u32`.
pub mod Record
pub mod Store
pub mod Rotation
pub mod Owned
pub mod Listing
pub mod Bootstrap
pub mod Pinned
mod Tests
