-- ===== src/Outbox.antt =====
-- crates/hrc-storage/src/outbox.rs and migrations: the tables of outgoing messages. A table is the
-- list of its rows, oldest first.
pub mod Queries
pub mod Recipients
pub mod Compose
pub mod Reseal
pub mod Updates
pub mod Readings
pub mod Distinct
pub mod Numbered
pub mod Unlinked
pub mod Composed
pub mod Step
pub mod Evolves
pub mod Rows
pub mod Kept
pub mod Preserved
pub mod Published
pub mod Latest
pub mod Numbers
pub mod Links
pub mod Represents
pub mod Refinement
mod Examples
use herdr_remote_channel.Prelude.{ℕ, String, Bool, Option, List}
use herdr_remote_channel.Prelude.BTreeMap.{BTreeMap}
use herdr_remote_channel.Storage.{OutboxState}

-- `RecipientPredecessors`: the link before this one, for each recipient device.
abbrev pub RecipientPredecessors : Type 0
RecipientPredecessors = BTreeMap (Option String)

pub record OutgoingReservation : Type 0 where
  pub message_id : String
  pub device_sequence : ℕ
  pub chain_id : String
  pub previous_chain_id : Option String
  pub roster_epoch : ℕ
  pub recipient_previous_chain_ids : RecipientPredecessors

pub record OutgoingBuild : Type 0 where
  pub ciphertext : List ℕ
  pub reseal_material : List ℕ

-- `ciphertext` is read as a BLOB that is not NULL.
pub record PendingOutgoing : Type 0 where
  pub message_id : String
  pub device_id : String
  pub device_sequence : ℕ
  pub chain_id : String
  pub previous_chain_id : Option String
  pub roster_epoch : ℕ
  pub payload_hash : String
  pub created_at : String
  pub ciphertext : List ℕ
  pub reseal_material : Option (List ℕ)
  pub recipient_order_stale : Bool

pub record SentMessageFacts : Type 0 where
  pub message_id : String
  pub thread_id : String
  pub kind : String
  pub recipient_device_ids : List String

-- `outbox`.
pub record OutboxRow : Type 0 where
  pub message_id : String
  pub channel_id : String
  pub device_id : String
  pub device_sequence : ℕ
  pub chain_id : String
  pub previous_chain_id : Option String
  pub roster_epoch : ℕ
  pub payload_hash : String
  pub ciphertext : Option (List ℕ)
  pub reseal_material : Option (List ℕ)
  pub thread_id : Option String
  pub kind : Option String
  pub in_reply_to : Option String
  pub state : OutboxState
  pub attempts : ℕ
  pub last_error : Option String
  pub created_at : String
  pub updated_at : String
  pub recipient_order_stale : Bool

-- `outbox_recipient`.
pub record RecipientRow : Type 0 where
  pub message_id : String
  pub device_id : String

-- `device_sequence`.
pub record SequenceRow : Type 0 where
  pub channel_id : String
  pub device_id : String
  pub last_sequence : ℕ
  pub last_chain_id : Option String

-- `channel` holds the identifiers of the channels that are registered.
pub record Tables : Type 0 where
  pub channel : List String
  pub device_sequence : List SequenceRow
  pub outbox : List OutboxRow
  pub outbox_recipient : List RecipientRow

-- What `chain_id_for` hashes.
pub record ChainLink : Type 0 where
  pub domain : String
  pub channel_id : String
  pub sender_device_id : String
  pub device_sequence : ℕ
  pub message_id : String
