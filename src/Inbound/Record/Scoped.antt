-- ===== src/Inbound/Record/Scoped.antt =====
-- crates/hrc-storage/src/ordering.rs: `record_recipient_inbound`, the ordering of one recipient's
-- messages from a device.
use herdr_remote_channel.Prelude.{
  ℕ, suc, length, String, Bool, true, false, ◌&&◌, Option, none, some, List, [], ◌∷◌, find, str_eq,
  leb, if◌then◌else◌,
}
use herdr_remote_channel.Errors.{StorageError, inbound_forked, Result, ok, err, reject_if, ◌>>=◌}
use herdr_remote_channel.Inbound.{
  InboundMessage, InboundOutcome, accepted, receipt_accepted, expired_accepted, held, RecipientLink,
  RecipientHead, Tables,
}
use herdr_remote_channel.Inbound.Run.{Run, and_then, return, throw}
use herdr_remote_channel.Inbound.Queries.{column_is, insert_unique, recipient_clash, recipient_head}
use herdr_remote_channel.Inbound.Accept.{
  store_held_inbox, store_inbound_context, insert_accepted, or_default,
}
use herdr_remote_channel.Inbound.Release.{start_walk, Walk}
use herdr_remote_channel.Inbound.Recipient.{
  in_scope, recipient_predecessor_sequence, recipient_predecessor_accepted,
  legacy_sender_history_exists, release_recipient,
}

abbrev competes : InboundMessage → String → RecipientLink → Bool
competes m recipient_device row =
    in_scope m.channel_id m.sender_device recipient_device row
    && column_is row.previous_chain_id m.recipient_previous_chain_id

abbrev forked_by : InboundMessage → String → StorageError
forked_by m existing = inbound_forked m.sender_device m.device_sequence existing m.message_id

unfoldable pub refuse_competitor : InboundMessage → String → Tables → Result StorageError (Unit {0})
refuse_competitor m recipient_device t =
    elim (find (competes m recipient_device) t.inbound_recipient_link) [
      | none ↦ ok tt
      | some row ↦ err (forked_by m row.message_id)
    ]

abbrev regresses : InboundMessage → String → Option ℕ → Result StorageError (Unit {0})
regresses m previous none = ok tt
regresses m previous (some sequence) =
    reject_if (leb m.device_sequence sequence) (forked_by m previous)

unfoldable pub refuse_regression : InboundMessage → String → Tables → Result StorageError (Unit {0})
unfolding recipient_predecessor_sequence
refuse_regression m recipient_device t = elim m.recipient_previous_chain_id [
  | none ↦ ok tt
  | some previous ↦
      regresses m previous
        (recipient_predecessor_sequence t m.channel_id m.sender_device recipient_device previous)
]

-- A predecessor that is accepted but is not the head already has a successor.
unfoldable pub refuse_passed :
    InboundMessage → String → Bool × Tables → Run StorageError (Bool × Tables)
refuse_passed m previous found = elim (found.0) [
  | true ↦ throw (forked_by m previous)
  | false ↦ return (false, found.1)
]

-- `let ready = match (head.as_ref(), predecessor)`.
unfoldable pub is_ready :
    InboundMessage
    → String
    → String
    → Option RecipientHead
    → Option String
    → Tables
    → Run StorageError (Bool × Tables)
unfolding recipient_predecessor_accepted legacy_sender_history_exists refuse_passed
is_ready m recipient_device now (some head) (some previous) t =
    elim (str_eq head.last_chain_id previous) [
      | true ↦ return (true, t)
      | false ↦
          and_then
            (recipient_predecessor_accepted m.channel_id m.sender_device recipient_device previous
              m.device_sequence now t)
            (refuse_passed m previous)
    ]
is_ready m recipient_device now (some head) none t = throw (forked_by m head.last_chain_id)
is_ready m recipient_device now none (some previous) t =
    recipient_predecessor_accepted m.channel_id m.sender_device recipient_device previous
      m.device_sequence now t
is_ready m recipient_device now none none t =
    elim (legacy_sender_history_exists t m.channel_id m.sender_device) [
      | true ↦ throw (forked_by m "legacy recipient history")
      | false ↦ return (true, t)
    ]

abbrev pub recipient_link : InboundMessage → String → Bool → RecipientLink
recipient_link m recipient_device ready = record {
  message_id = m.message_id;
  channel_id = m.channel_id;
  sender_device = m.sender_device;
  recipient_device = recipient_device;
  device_sequence = m.device_sequence;
  chain_id = m.chain_id;
  previous_chain_id = m.recipient_previous_chain_id;
  ciphertext_sha256 = m.ciphertext_sha256;
  is_accepted = ready;
  is_receipt = str_eq m.kind "receipt";
  is_expired = m.expired;
}

unfoldable pub insert_recipient_link :
    InboundMessage → String → Bool → Tables → Result StorageError Tables
insert_recipient_link m recipient_device ready t = do
  rows ←
      insert_unique recipient_clash (recipient_link m recipient_device ready)
        t.inbound_recipient_link
  ok (record t { inbound_recipient_link = rows })

abbrev same_scope : RecipientHead → RecipientHead → Bool
same_scope head row =
    str_eq row.channel_id head.channel_id
    && str_eq row.sender_device head.sender_device
    && str_eq row.recipient_device head.recipient_device

abbrev pub upsert_recipient_head : RecipientHead → List RecipientHead → List RecipientHead
upsert_recipient_head head [] = head ∷ []
upsert_recipient_head head (row ∷ rows) =
    if same_scope head row then head ∷ rows else row ∷ upsert_recipient_head head rows

unfoldable pub advance_recipient : InboundMessage → String → Walk → Tables → Tables
advance_recipient m recipient_device w t = record t {
  inbound_recipient_chain =
      upsert_recipient_head
        (record {
          channel_id = m.channel_id;
          sender_device = m.sender_device;
          recipient_device = recipient_device;
          last_sequence = w.sequence;
          last_chain_id = w.link;
        })
        t.inbound_recipient_chain;
}

-- The outcome of an accepted message, by the arrival number it got and whether it had expired.
unfoldable pub outcome_of : InboundMessage → Option ℕ → List String → InboundOutcome
outcome_of m arrival released =
    if m.expired
    then expired_accepted released
    else elim arrival [ none ↦ receipt_accepted released | some n ↦ accepted n released ]

abbrev pub conclude_recipient :
    InboundMessage → String → Option ℕ → Walk × Tables → Run StorageError (InboundOutcome × Tables)
conclude_recipient m recipient_device arrival walked =
    return (
      outcome_of m arrival walked.0.released,
      advance_recipient m recipient_device walked.0 walked.1,
    )

-- What follows `if !ready`.
unfoldable pub accept_for_recipient :
    InboundMessage → String → String → Tables → Run StorageError (InboundOutcome × Tables)
unfolding insert_accepted store_inbound_context release_recipient advance_recipient outcome_of
accept_for_recipient m recipient_device now t =
    and_then (some (insert_accepted m now t)) λ inserted.
      let stored = store_inbound_context m inserted.1 in
      and_then
        (release_recipient (suc (length stored.inbound_recipient_link)) m recipient_device now
          (start_walk m) stored)
        (conclude_recipient m recipient_device inserted.0)

unfoldable pub hold_for_recipient :
    InboundMessage → String → Tables → Run StorageError (InboundOutcome × Tables)
unfolding store_held_inbox store_inbound_context
hold_for_recipient m now t = and_then (some (store_held_inbox m now t)) λ stored.
    return (held (or_default m.recipient_previous_chain_id), store_inbound_context m stored)

-- The insertion of the link, and what follows by whether the message is ready.
unfoldable pub place_recipient :
    InboundMessage → String → String → Bool × Tables → Run StorageError (InboundOutcome × Tables)
unfolding insert_recipient_link accept_for_recipient hold_for_recipient
place_recipient m recipient_device now found =
    and_then (some (insert_recipient_link m recipient_device found.0 found.1)) λ linked.
      elim (found.0) [
        | true ↦ accept_for_recipient m recipient_device now linked
        | false ↦ hold_for_recipient m now linked
      ]

unfoldable pub record_recipient_inbound :
    InboundMessage → String → String → Tables → Run StorageError (InboundOutcome × Tables)
unfolding refuse_competitor refuse_regression recipient_head is_ready place_recipient
record_recipient_inbound m recipient_device now t =
    and_then (some (refuse_competitor m recipient_device t)) λ _.
      and_then (some (refuse_regression m recipient_device t)) λ _.
        and_then
          (is_ready m recipient_device now
            (recipient_head t m.channel_id m.sender_device recipient_device)
            m.recipient_previous_chain_id t)
          (place_recipient m recipient_device now)
