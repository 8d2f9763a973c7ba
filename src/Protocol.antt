-- ===== src/Protocol.antt =====
-- crates/hrc-protocol/src: the version of lib.rs; the wire types and their checks are the children.
pub mod Domain
pub mod Canonical
pub mod Signed
pub mod Identity
pub mod Control
pub mod Kind
pub mod Receipt
pub mod Attachment
pub mod Padding
pub mod Limits
pub mod Examples
pub mod Text
pub mod Delegation
pub mod Envelope
pub mod Ulid
use herdr_remote_channel.Prelude.{ℕ}

abbrev pub protocol_version : ℕ
protocol_version = 1
