-- ===== src/Inbound/Record.antt =====
-- crates/hrc-storage/src/ordering.rs: `record_inbound`, which decides whether an arriving message
-- is new, a repeat, a fork, or out of order.
pub mod Scoped
use herdr_remote_channel.Prelude.{
  ℕ, zero, suc, length, String, Bool, true, false, not, ◌&&◌, ◌||◌, Option, none, some, List, [],
  ◌∷◌, ◌++◌, find, map, str_eq, leb, if◌then◌else◌,
}
use herdr_remote_channel.Errors.{
  StorageError, inbound_substituted, inbound_forked, Result, ok, err, reject_if, ok_or, ◌>>=◌, ◌>>◌,
}
use herdr_remote_channel.Inbound.{
  InboundMessage, InboundOutcome, accepted, receipt_accepted, expired_accepted, duplicate, held,
  ReceiptLink, ChainHead, Tables,
}
use herdr_remote_channel.Inbound.Run.{Run, and_then, return, throw}
use herdr_remote_channel.Inbound.Queries.{
  column_eq, insert_unique, receipt_clash, recorded_digest, sequence_taken, chain_taken, chain_head,
}
use herdr_remote_channel.Inbound.Accept.{store_inbound_context, hold, insert_accepted}
use herdr_remote_channel.Inbound.Release.{start_walk, Walk, release}
use Scoped.{outcome_of, record_recipient_inbound}

abbrev pub receipt_link : InboundMessage → ReceiptLink
receipt_link m = record {
  message_id = m.message_id;
  channel_id = m.channel_id;
  sender_device = m.sender_device;
  device_sequence = m.device_sequence;
  chain_id = m.chain_id;
  previous_chain_id = m.previous_chain_id;
  ciphertext_sha256 = m.ciphertext_sha256;
}

-- A receipt leaves its link in a table of its own.
unfoldable pub store_receipt_link : InboundMessage → Tables → Result StorageError Tables
store_receipt_link m t = if not (str_eq m.kind "receipt") then ok t else do
  rows ← insert_unique receipt_clash (receipt_link m) t.inbound_receipt_link
  ok (record t { inbound_receipt_link = rows })

abbrev pub upsert_head : ChainHead → List ChainHead → List ChainHead
upsert_head head [] = head ∷ []
upsert_head head (row ∷ rows) =
    if str_eq row.channel_id head.channel_id && str_eq row.sender_device head.sender_device
    then head ∷ rows
    else row ∷ upsert_head head rows

unfoldable pub advance_chain : InboundMessage → Walk → Tables → Tables
advance_chain m w t = record t {
  inbound_chain =
      upsert_head
        (record {
          channel_id = m.channel_id;
          sender_device = m.sender_device;
          last_sequence = w.sequence;
          last_chain_id = w.link;
        })
        t.inbound_chain;
}

-- The head moves to where the release ended.
abbrev pub conclude :
    InboundMessage → Option ℕ → Walk × Tables → Run StorageError (InboundOutcome × Tables)
conclude m arrival walked =
    return (outcome_of m arrival walked.0.released, advance_chain m walked.0 walked.1)

-- What follows the match on the head: accept the message, then release what waits on it.
unfoldable pub accept_next :
    InboundMessage → String → Tables → Run StorageError (InboundOutcome × Tables)
unfolding insert_accepted store_inbound_context release advance_chain outcome_of
accept_next m now t = and_then (some (insert_accepted m now t)) λ inserted.
    let stored = store_inbound_context m inserted.1 in
    and_then (release (suc (length stored.inbound_hold)) m now (start_walk m) stored)
      (conclude m inserted.0)

unfoldable pub hold_back :
    InboundMessage → String → Tables → Run StorageError (InboundOutcome × Tables)
unfolding hold store_inbound_context
hold_back m now t =
    and_then (some (hold m now t)) λ parked. return (parked.0, store_inbound_context m parked.1)

-- `match (&head, message.previous_chain_id)`.
unfoldable pub order_by_chain :
    InboundMessage
    → String
    → Option ChainHead
    → Option String
    → Tables
    → Run StorageError (InboundOutcome × Tables)
unfolding accept_next hold_back
order_by_chain m now none none t = accept_next m now t
order_by_chain m now none (some previous) t = hold_back m now t
order_by_chain m now (some head) (some previous) t = elim (str_eq head.last_chain_id previous) [
  | true ↦ accept_next m now t
  | false ↦ hold_back m now t
]
order_by_chain m now (some head) none t =
    throw (inbound_forked m.sender_device m.device_sequence head.last_chain_id m.message_id)

unfoldable pub refuse_taken : InboundMessage → Option String → Result StorageError (Unit {0})
refuse_taken m none = ok tt
refuse_taken m (some other) =
    err (inbound_forked m.sender_device m.device_sequence other m.message_id)

-- A new message: its sequence and its link must be free, and then its predecessor decides.
unfoldable pub record_new :
    InboundMessage → String → Tables → Run StorageError (InboundOutcome × Tables)
unfolding sequence_taken chain_taken refuse_taken record_recipient_inbound chain_head
    store_receipt_link order_by_chain
record_new m now t =
    and_then
      (some (refuse_taken m (sequence_taken t m.channel_id m.sender_device m.device_sequence)))
      λ _. and_then (some (refuse_taken m (chain_taken t m.channel_id m.chain_id))) λ _.
        elim m.recipient_device [
          | some recipient_device ↦ record_recipient_inbound m recipient_device now t
          | none ↦ and_then (some (store_receipt_link m t)) λ linked.
              order_by_chain m now (chain_head t m.channel_id m.sender_device) m.previous_chain_id
                linked
        ]

-- The body of the transaction.
unfoldable pub run_inbound :
    InboundMessage → String → Tables → Run StorageError (InboundOutcome × Tables)
unfolding recorded_digest record_new
run_inbound m now t = elim (recorded_digest t m.message_id m.channel_id) [
  | some recorded ↦ elim (column_eq recorded m.ciphertext_sha256) [
    | true ↦ return (duplicate, t)
    | false ↦ throw (inbound_substituted m.message_id)
  ]
  | none ↦ record_new m now t
]

-- A transaction that is dropped before `commit` rolls back.
abbrev pub committed :
    Tables
    → Run StorageError (InboundOutcome × Tables)
    → Option (Result StorageError InboundOutcome × Tables)
committed t none = none
committed t (some (ok (outcome, after))) = some (ok outcome, after)
committed t (some (err e)) = some (err e, t)

unfoldable pub record_inbound :
    InboundMessage → String → Tables → Option (Result StorageError InboundOutcome × Tables)
unfolding run_inbound
record_inbound m now t = committed t (run_inbound m now t)
