-- ===== src/Inbound.antt =====
-- crates/hrc-storage/src/inbox.rs, context.rs and migrations: the arriving message, the outcomes,
-- and the tables that inbound ordering reads and writes. A table is the list of its rows, oldest
-- first; a query that reads one row takes the first that matches.
pub mod Run
pub mod Queries
pub mod Accept
pub mod Release
pub mod Adopt
pub mod Recipient
pub mod Record
pub mod Counts
pub mod Ends
pub mod EndsScoped
pub mod Total
pub mod Arrivals
pub mod Keeps
pub mod KeepsReady
pub mod KeepsAll
pub mod Committed
pub mod Stable
pub mod Digests
pub mod Redelivery
pub mod Order
pub mod Settled
pub mod Accepting
pub mod HeldBack
pub mod Walked
pub mod Taken
pub mod ReleaseEnds
pub mod Drained
mod Examples
use herdr_remote_channel.Prelude.{ℕ, String, Bool, Option, List}

pub record InboundContext : Type 0 where
  pub package_id : String
  pub digest : String
  pub manifest : List ℕ

pub record InboundMessage : Type 0 where
  pub channel_id : String
  pub message_id : String
  pub sender_principal : String
  pub sender_device : String
  pub device_sequence : ℕ
  pub chain_id : String
  pub previous_chain_id : Option String
  pub recipient_device : Option String
  pub recipient_previous_chain_id : Option String
  pub kind : String
  pub thread_id : Option String
  pub in_reply_to : Option String
  pub roster_epoch : ℕ
  pub endpoint : Option String
  pub ciphertext_bytes : ℕ
  pub plaintext_bytes : ℕ
  pub ciphertext_sha256 : String
  pub created_at : String
  pub expires_at : Option String
  pub expired : Bool
  pub attachment_count : ℕ
  pub attachment_bytes : ℕ
  pub prompt_request : Bool
  pub body : List ℕ
  pub ciphertext : List ℕ
  pub context : Option InboundContext

pub data InboundOutcome : Type 0 where
  accepted : ℕ → List String → InboundOutcome
  receipt_accepted expired_accepted : List String → InboundOutcome
  duplicate : InboundOutcome
  held : String → InboundOutcome

-- `inbox`. `chain_id` and `ciphertext_sha256` are NULL in a row older than migration 002.
pub record InboxRow : Type 0 where
  pub message_id : String
  pub channel_id : String
  pub sender_principal : String
  pub sender_device : String
  pub kind : String
  pub thread_id : Option String
  pub in_reply_to : Option String
  pub roster_epoch : ℕ
  pub endpoint : Option String
  pub ciphertext_bytes : ℕ
  pub plaintext_bytes : ℕ
  pub created_at : String
  pub expires_at : Option String
  pub received_at : String
  pub body : Option (List ℕ)
  pub disposition : String
  pub device_sequence : ℕ
  pub chain_id : Option String
  pub previous_chain_id : Option String
  pub ciphertext_sha256 : Option String
  pub arrival_sequence : Option ℕ
  pub attachment_count : ℕ
  pub attachment_bytes : ℕ
  pub prompt_request : Bool

-- `inbound_hold`.
pub record HoldRow : Type 0 where
  pub message_id : String
  pub channel_id : String
  pub sender_device : String
  pub device_sequence : ℕ
  pub chain_id : String
  pub previous_chain_id : Option String
  pub ciphertext_sha256 : String
  pub ciphertext : List ℕ
  pub held_at : String

-- `inbound_receipt_link`.
pub record ReceiptLink : Type 0 where
  pub message_id : String
  pub channel_id : String
  pub sender_device : String
  pub device_sequence : ℕ
  pub chain_id : String
  pub previous_chain_id : Option String
  pub ciphertext_sha256 : String

-- `inbound_recipient_link`. Its `state` column is either 'held' or 'accepted'.
pub record RecipientLink : Type 0 where
  pub message_id : String
  pub channel_id : String
  pub sender_device : String
  pub recipient_device : String
  pub device_sequence : ℕ
  pub chain_id : String
  pub previous_chain_id : Option String
  pub ciphertext_sha256 : String
  pub is_accepted : Bool
  pub is_receipt : Bool
  pub is_expired : Bool

-- `inbound_chain`: the last link accepted from a sender device.
pub record ChainHead : Type 0 where
  pub channel_id : String
  pub sender_device : String
  pub last_sequence : ℕ
  pub last_chain_id : String

-- `inbound_recipient_chain`.
pub record RecipientHead : Type 0 where
  pub channel_id : String
  pub sender_device : String
  pub recipient_device : String
  pub last_sequence : ℕ
  pub last_chain_id : String

-- `inbound_context`.
pub record ContextRow : Type 0 where
  pub message_id : String
  pub package_id : String
  pub digest : String
  pub manifest : List ℕ

pub record Tables : Type 0 where
  pub inbox : List InboxRow
  pub inbound_hold : List HoldRow
  pub inbound_receipt_link : List ReceiptLink
  pub inbound_recipient_link : List RecipientLink
  pub inbound_chain : List ChainHead
  pub inbound_recipient_chain : List RecipientHead
  pub inbound_context : List ContextRow
