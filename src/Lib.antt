-- ===== src/Lib.antt =====
-- herdr-remote-channel: end-to-end encrypted messages between Herdr sessions over a shared,
-- untrusted repository.
--
-- The program's parts and the modules that model them, with paths from the repository's root:
-- * Protocol (crates/hrc-protocol): the signed envelope, device certificates, genesis and control
--   entries. `signature_input`, `verify_device_id`, `validate_shape` and `advances_epoch` keep their
--   names. A `serde_json::Value` is the text of its JSON.
--   Protocol/Attachment and Protocol/Padding are `validate_attachments` and `padding_for`, and
--   Protocol/Limits what they guarantee.
-- * Crypto (crates/hrc-crypto/src/lib.rs): `VerifyingKey`. The third-party primitives (serde_jcs, sha2,
--   base64, ed25519_dalek) are the fields of the parameter `Primitives`.
-- * Roster (crates/hrc-core/src/roster.rs): `from_genesis` and `apply`, with every control operation.
--   A `&mut self` method that returns `Result<()>` is a function to a result and the roster that is
--   left behind, so that what is written before an error stays written. `replay` is the loop of
--   crates/hrc-cli/src/commands/channel.rs over the entries of a log.
-- * Delegation (crates/hrc-core/src/delegation.rs) and Protocol/Delegation
--   (crates/hrc-protocol/src/delegation.rs): the lifecycle of a delegated task. `request` is
--   `Delegation::open`.
-- * Gate (crates/hrc-core/src/gate.rs): authorizations, `consume`, `deliver`, and in Gate/View the
--   `agent_view`. The digest of a text is a parameter.
-- * Transport (crates/hrc-transport/src/lib.rs): the trait, as a record of operations on a state, and
--   `validate_publication`. Transport/Memory (crates/hrc-transport/src/memory.rs) fills it.
-- * Storage (crates/hrc-storage/src): the rows that synchronization updates. An SQL update by primary
--   key is a write to a map; a failure of SQLite itself is left out.
-- * Outbox (crates/hrc-storage/src/outbox.rs, crates/hrc-protocol/src/recipients.rs and the migrations):
--   the tables of outgoing messages as lists of rows, and every operation on them; `commit` keeps what
--   a transaction wrote when it succeeded. Outbox/Step has the operations as a step relation,
--   Outbox/Represents and Outbox/Refinement relate the tables to the map of Storage.
--   Outbox/Evolves is the relation between the tables before and after an operation that the modules
--   on single properties build on.
-- * Sync (crates/hrc-core/src/sync.rs): `fetch_once` over any transport, and in Sync/Publishing
--   `publish_one_prepared`, whose loop is a recursion on the attempts that are left.
-- * Receipt (crates/hrc-core/src/receipt.rs) and Protocol/Receipt (crates/hrc-protocol/src/receipt.rs):
--   which receipts and answers count.
-- * Frame (crates/hrc-ipc/src/frame.rs): length-prefixed frames. A connection is the list of bytes that
--   the peer sends before it closes; its failures other than an early end are left out.
-- * Inbound (crates/hrc-storage/src/ordering.rs, inbox.rs, context.rs and the migrations): `Tables` are
--   lists of rows, and an INSERT looks for the rows that its UNIQUE constraints name. `record_inbound`
--   is one transaction; `committed` is its rollback. The walks along held rows run on fuel, the number
--   of rows that a walk can take plus one; a `none` of type `Run` is a walk out of fuel.
--   Inbound/Record follows the code, Inbound/Total and the modules after it say what it does. In
--   Inbound/Settled a held message is accepted when its inbox row has an arrival number or is that of a
--   receipt, or when it has a row among the receipts; Inbound/Walked is a walk along held links.
-- * Visibility and Alias (crates/hrc-core/src/visibility.rs and alias.rs): which publications are
--   confirmed and which display names are stored.
-- * Rpc (crates/hrc-core/src/rpc.rs): `dispatch_agent` and `dispatch_trusted` over any `Broker`, a
--   record of the trait's operations on a state. The identifier on which the loop of
--   `ContextAuthorizationLedger::issue` ends is a parameter `drawn`. A decision goes through Gate.
--   Rpc/HandedOver describes what stands behind delivered content, Rpc/Spent a used authorization.
-- Texts are native strings, compared by `str_eq` and, for Rust's `<` and `<=`, by `str_lt` and
-- `str_le`. A `BTreeMap` is an association list in key order, with `get`, `insert` and `map_values`.
-- Sequences and epochs are `u64` counters that go up by one, and are plain natural numbers here. Three
-- sums of machine integers can overflow. The attachment total of the agent view saturates, and the one
-- of `validate_attachments` is refused, both as in the code. `start + limit.max(1)` in the `fetch` of
-- crates/hrc-transport/src/memory.rs, a `usize`, has no such guard and is a plain sum here: the model
-- leaves out a limit near `usize::MAX`, and the calls in the repository ask for at most 100. The
-- sequence columns of the database are 64-bit integers, and the counters stay below 2^63. A
-- transport's revisions are texts made by `decimal` with a width of 8.
-- Not modelled: the command line, the terminal interface, the Herdr plugin, the Git adapter, sockets,
-- encryption and key storage, which are input and output or third-party code around the parts above;
-- timestamps, context packages and the JSON-RPC mapping of a transport process; of the parts above, the
-- join requests, the message encryption and the back-off's random jitter.
pub mod Prelude
pub mod Errors
pub mod Protocol
pub mod Crypto
pub mod Roster
pub mod Delegation
pub mod Gate
pub mod Visibility
pub mod Alias
pub mod Outbox
pub mod Rpc
pub mod Transport
pub mod Storage
pub mod Inbound
pub mod Sync
pub mod Receipt
pub mod Frame
