-- ===== src/Lib.antt =====
-- Verification of the engine of Hey (capsules/hey-core) and of the peer provider
-- (capsules/peer-provider): how a message is sealed, cut, carried, delivered and cached.
--
-- The parts and their modules:
--   Frag      capsules/hey-core/src/api/frag.rs: `fragment` cuts a wire that is too large for a gossip
--             message, `reassemble` collects the pieces in a buffer with a TTL. The buffer, a
--             thread-local map in the source, is passed along; the message id and the JSON codec
--             are arguments, the codec with the law that parsing undoes printing. `fragment` is `none`
--             where a slice cuts a character and so panics.
--   Identity  capsules/hey-core/src/identity.rs: hexadecimal keys. A slice that cuts a character is
--             the error `panicked`.
--   Crypto    capsules/hey-core/src/crypto.rs: `Kdf` the key derivations, `Padding` the size buckets,
--             `Attachment` the blob format of attachments, `Envelope` the hybrid envelopes of messages.
--   Ratchet   capsules/hey-core/src/api/dms.rs, from `RatchetHeader` to `ratchet_step_recv`: the Double
--             Ratchet with hybrid turns. `State` holds the state and the stash of skipped keys,
--             `Steps` the operations. A step returns the new state; an error carries none, as the
--             callers step a clone and discard it.
--   Broker    capsules/peer-provider/src/main.rs: `Broker` and `Topic`, the log of each topic and
--             the cursor of each consumer.
--   CidCache  capsules/hey-core/src/runtime.rs: the bounded cache of content bodies. `Eviction` is
--             about what a put drops.
--   Contacts  capsules/hey-core/src/api/dms.rs: `Record` the contact and the queues it owns, `Store`
--             the stored list and its updates, `Rotation` the rotation of inbound queues and the
--             topics that are listened on.
--   Outbox    capsules/hey-core/src/api/outbox.rs: the queue of publishes that were not confirmed.
--             Storage, the clock and the peer provider are the operations of `Gossip` on a state of
--             the world. `Queue` bounds the queue, `Retry` the delays, `Fates` says which items
--             stay, `Stored` what storage holds.
--   Conversation  capsules/hey-core/src/api/dms.rs: the stored conversations, incoming messages and
--             expiry, over a map from file paths.
--   Groups    capsules/hey-core/src/api/dms.rs: the stored groups and consent; `Roster` the operations
--             on a roster and the bodies that they hand to the sender, `Incoming` what a message's
--             context and text do, `History` a sequence of such messages. `Contacts.Bootstrap` makes
--             contacts of the keys that a roster brings.
--   Identity.Base58  capsules/hey-core/src/identity.rs: base58 and did:key. The encoder's loop runs on
--             fuel, two rounds for a byte; `Identity.Signing` verifies a signature.
--   Events    capsules/hey-core/src/events.rs: JSON values and their canonical form (`Values`), signed
--             events. `Order` and `Canonical` are about the order of keys.
--   Receiving capsules/hey-core/src/api/dms.rs: a wire from its JSON (`Wire`) over the payload
--             (`Payload`) and its opening (`Opening`) to what is stored, for messages of the ratchet
--             (`Advance`) and outside it (`Single`), handshakes and welcomes (`Handshake`);
--             `Revoking` withdraws an invite and deletes a conversation. It ties Ratchet, Crypto,
--             Contacts, Conversation, Groups and Events together; `Device` is what all of them store.
--
-- How they meet: the ratchet gives the key of a message, whose envelope is padded (Crypto) and, as a
-- wire, cut into fragments (Frag), each of which the broker (Broker) keeps for the receiver, who
-- reassembles the wire and steps its own ratchet. Attachments travel apart, as blobs that the
-- receiver fetches through the cache (CidCache). A wire that arrives is opened and checked (Receiving)
-- under the ratchet of the contact that owns its queue (Contacts), and what it says goes into a
-- conversation (Conversation) or a group (Groups). What could not be sent waits (Outbox).
--
-- Numbers are the native ℕ; a `u32` or `u64` wraps or is checked where the source does so, and a
-- time is a number of milliseconds. Maps are association lists. The loops run over lists or over a
-- number of rounds that the source fixes, but for the encoder of base58, which runs on fuel: a byte is
-- less than 58 * 58, so a list of bytes has at most two digits in base 58 for each.
--
-- What stands outside the repository is a parameter with named laws: HKDF, X25519, ML-KEM-768,
-- ChaCha20-Poly1305, Ed25519, SHA-256, base64, serde_json with the readers and writers that it derives,
-- and the identity provider. What is not modelled: how invites are made and accepted, sending, and the
-- device link; the user interfaces and command line tools, which only call the engine; platform glue and
-- sessions, which are I/O; the networking of the peer provider below its broker; vendored code.
pub mod Prelude
pub mod Frag
pub mod Broker
pub mod CidCache
pub mod Identity
pub mod Crypto
pub mod Ratchet
pub mod Groups
pub mod Events
pub mod Receiving
pub mod Outbox
pub mod Contacts
pub mod Conversation
