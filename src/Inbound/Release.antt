-- ===== src/Inbound/Release.antt =====
-- crates/hrc-storage/src/ordering.rs: taking held messages back and releasing those that wait on
-- an accepted link of their device's own chain.
use herdr_remote_channel.Prelude.{
  ℕ, zero, suc, String, Bool, true, false, ◌&&◌, Option, none, some, List, [], ◌∷◌, ◌++◌, find,
  str_eq, if◌then◌else◌,
}
use herdr_remote_channel.Errors.{StorageError}
use herdr_remote_channel.Inbound.{InboundMessage, InboxRow, HoldRow, ReceiptLink, Tables}
use herdr_remote_channel.Inbound.Run.{Run, and_then, return}
use herdr_remote_channel.Inbound.Queries.{column_eq, any}
use herdr_remote_channel.Inbound.Accept.{delete_hold, insert_accepted}

pub record HeldMessage : Type 0 where
  pub message_id : String
  pub sender_principal : String
  pub device_sequence : ℕ
  pub chain_id : String
  pub previous_chain_id : Option String
  pub kind : String
  pub thread_id : Option String
  pub in_reply_to : Option String
  pub roster_epoch : ℕ
  pub endpoint : Option String
  pub ciphertext_bytes : ℕ
  pub plaintext_bytes : ℕ
  pub ciphertext_sha256 : String
  pub created_at : String
  pub expires_at : Option String
  pub attachment_count : ℕ
  pub attachment_bytes : ℕ
  pub prompt_request : Bool
  pub body : List ℕ
  pub disposition : String

abbrev body_or_default : Option (List ℕ) → List ℕ
body_or_default none = []
body_or_default (some body) = body

-- `held_message_from_row` on the columns of a held row and its `inbox` row.
unfoldable pub held_message_from_row :
    String → ℕ → String → Option String → String → InboxRow → HeldMessage
held_message_from_row id sequence link previous digest row = record {
  message_id = id;
  sender_principal = row.sender_principal;
  device_sequence = sequence;
  chain_id = link;
  previous_chain_id = previous;
  kind = row.kind;
  thread_id = row.thread_id;
  in_reply_to = row.in_reply_to;
  roster_epoch = row.roster_epoch;
  endpoint = row.endpoint;
  ciphertext_bytes = row.ciphertext_bytes;
  plaintext_bytes = row.plaintext_bytes;
  ciphertext_sha256 = digest;
  created_at = row.created_at;
  expires_at = row.expires_at;
  attachment_count = row.attachment_count;
  attachment_bytes = row.attachment_bytes;
  prompt_request = row.prompt_request;
  body = body_or_default row.body;
  disposition = row.disposition;
}

-- The message that a released row stands for: ordered by its own chain, or by a recipient's.
unfoldable pub waiting_message :
    InboundMessage → HeldMessage → Option String → Option String → Bool → InboundMessage
waiting_message m next recipient previous expired = record {
  channel_id = m.channel_id;
  message_id = next.message_id;
  sender_principal = next.sender_principal;
  sender_device = m.sender_device;
  device_sequence = next.device_sequence;
  chain_id = next.chain_id;
  previous_chain_id = next.previous_chain_id;
  recipient_device = recipient;
  recipient_previous_chain_id = previous;
  kind = next.kind;
  thread_id = next.thread_id;
  in_reply_to = next.in_reply_to;
  roster_epoch = next.roster_epoch;
  endpoint = next.endpoint;
  ciphertext_bytes = next.ciphertext_bytes;
  plaintext_bytes = next.plaintext_bytes;
  ciphertext_sha256 = next.ciphertext_sha256;
  created_at = next.created_at;
  expires_at = next.expires_at;
  expired = expired;
  attachment_count = next.attachment_count;
  attachment_bytes = next.attachment_bytes;
  prompt_request = next.prompt_request;
  body = next.body;
  ciphertext = [];
  context = none;
}

abbrev pub waits_on : String → String → String → HoldRow → Bool
waits_on channel_id sender_device link row =
    str_eq row.channel_id channel_id
    && str_eq row.sender_device sender_device
    && column_eq row.previous_chain_id link

-- `inbound_hold JOIN inbox`, of which the first row is read.
unfoldable pub join_held :
    List InboxRow → String → String → String → List HoldRow → Option HeldMessage
unfolding held_message_from_row
join_held inbox channel_id sender_device link [] = none
join_held inbox channel_id sender_device link (row ∷ rows) =
    let rest = join_held inbox channel_id sender_device link rows in
    if waits_on channel_id sender_device link row
    then elim (find (λ message. str_eq message.message_id row.message_id) inbox) [
      | none ↦ rest
      | some message ↦ some (
          held_message_from_row row.message_id row.device_sequence row.chain_id
            row.previous_chain_id row.ciphertext_sha256 message)
    ]
    else rest

unfoldable pub take_held : Tables → String → String → String → Option HeldMessage
unfolding join_held
take_held t channel_id sender_device link =
    join_held t.inbox channel_id sender_device link t.inbound_hold

abbrev pub receipt_waits : Tables → String → String → String → ReceiptLink → Bool
receipt_waits t channel_id sender_device link row =
    str_eq row.channel_id channel_id
    && str_eq row.sender_device sender_device
    && column_eq row.previous_chain_id link
    && any (λ hold. str_eq hold.message_id row.message_id) t.inbound_hold

unfoldable pub take_held_receipt : Tables → String → String → String → Option ReceiptLink
take_held_receipt t channel_id sender_device link =
    find (receipt_waits t channel_id sender_device link) t.inbound_receipt_link

-- Where the release has got to: the last link, its sequence, and what was released.
pub record Walk : Type 0 where
  pub link : String
  pub sequence : ℕ
  pub released : List String

-- Where the release begins: at the link of the accepted message.
abbrev pub start_walk : InboundMessage → Walk
start_walk m = record { link = m.chain_id; sequence = m.device_sequence; released = [] }

abbrev pub push_unless : Bool → String → List String → List String
push_unless true id ids = ids
push_unless false id ids = ids ++ (id ∷ [])

abbrev pub own_chain_message : InboundMessage → HeldMessage → InboundMessage
own_chain_message m next = waiting_message m next none none (str_eq next.disposition "expired")

abbrev pub past_receipt : Walk → ReceiptLink → Walk
past_receipt w r = record w { link = r.chain_id; sequence = r.device_sequence }

abbrev pub past_message : Walk → HeldMessage → Walk
past_message w next = record {
  link = next.chain_id;
  sequence = next.device_sequence;
  released = push_unless (str_eq next.disposition "expired") next.message_id w.released;
}

-- The release loop of `record_inbound`.
unfoldable pub release :
    ℕ → InboundMessage → String → Walk → Tables → Run StorageError (Walk × Tables)
unfolding take_held take_held_receipt waiting_message insert_accepted delete_hold
release zero m now w t = none
release (suc fuel) m now w t = elim (take_held_receipt t m.channel_id m.sender_device w.link) [
  | some r ↦ release fuel m now (past_receipt w r) (delete_hold r.message_id t)
  | none ↦ elim (take_held t m.channel_id m.sender_device w.link) [
    | none ↦ return (w, t)
    | some next ↦
        and_then (some (insert_accepted (own_chain_message m next) now t))
          λ inserted. release fuel m now (past_message w next) inserted.1
  ]
]
