-- ===== src/Outbox/Reseal.antt =====
-- crates/hrc-storage/src/outbox.rs: `reseal_outgoing`, one transaction.
use herdr_remote_channel.Prelude.{
  ℕ, String, Bool, false, true, ◌&&◌, Option, none, some, List, str_eq, ltb, ◌==◌,
}
use herdr_remote_channel.Errors.{
  ProtocolError, StorageError, unknown_message, invalid_ids, Result, ok, ok_or, map_err, ◌>>=◌,
  ◌>>◌,
}
use herdr_remote_channel.Outbox.{
  RecipientPredecessors, PendingOutgoing, OutboxRow, Tables, ChainLink,
}
use herdr_remote_channel.Outbox.Queries.{
  update_where, expect_row, is_pending, recipient_predecessors_for, replace_recipient_facts,
  outgoing_channel, pending_outgoing_in_transaction,
}
use herdr_remote_channel.Outbox.Recipients.{recipient_devices}
use herdr_remote_channel.Outbox.Compose.{in_transaction}

abbrev pub at_epoch : ℕ → Option PendingOutgoing → Option PendingOutgoing
at_epoch expected none = none
at_epoch expected (some outgoing) = elim (outgoing.roster_epoch == expected) [
  | true ↦ some outgoing
  | false ↦ none
]

-- `message_id = ?1 AND roster_epoch = ?2 AND state IN ('queued', 'publishing')`.
abbrev pub is_pending_at : String → ℕ → OutboxRow → Bool
is_pending_at message_id epoch row =
    str_eq row.message_id message_id && row.roster_epoch == epoch && is_pending row.state

-- The pending rows of a device behind a sequence number.
abbrev pub is_behind : String → String → ℕ → OutboxRow → Bool
is_behind channel_id device_id sequence row =
    str_eq row.channel_id channel_id
    && str_eq row.device_id device_id
    && ltb sequence row.device_sequence
    && is_pending row.state

abbrev pub resealed : ℕ → List ℕ → String → OutboxRow → OutboxRow
resealed epoch ciphertext now row = record row {
  roster_epoch = epoch;
  ciphertext = some ciphertext;
  recipient_order_stale = false;
  updated_at = now;
}

abbrev pub made_stale : OutboxRow → OutboxRow
made_stale row = record row { recipient_order_stale = true }

module _ {ℓ} {E : Type ℓ} (hash_link : ChainLink → Result ProtocolError String)
    (hash_ids : List String → Result ProtocolError String) (from : StorageError → E) where
  -- What `reseal_outgoing` writes: the new ciphertext, its recipients, and that the pending
  -- messages behind it name links that may have changed.
  unfoldable pub store_resealed :
      String
      → PendingOutgoing
      → String
      → ℕ
      → ℕ
      → List String
      → List ℕ
      → String
      → Tables
      → Result StorageError Tables
  unfolding update_where replace_recipient_facts
  store_resealed channel_id outgoing message_id expected_epoch epoch devices ciphertext now t = do
    let chosen = is_pending_at message_id expected_epoch
    expect_row chosen message_id t.outbox
    linked ←
        replace_recipient_facts message_id devices
          (record t { outbox = update_where chosen (resealed epoch ciphertext now) t.outbox })
    ok (record linked {
      outbox =
          update_where (is_behind channel_id outgoing.device_id outgoing.device_sequence) made_stale
            linked.outbox;
    })

  unfoldable pub reseal_in :
      String
      → ℕ
      → ℕ
      → List String
      → String
      → (PendingOutgoing → RecipientPredecessors → Result E (List ℕ))
      → Tables
      → Result E (Unit {0} × Tables)
  unfolding recipient_devices pending_outgoing_in_transaction outgoing_channel
      recipient_predecessors_for store_resealed
  reseal_in message_id expected_epoch epoch recipient_device_ids now build t = do
    recipients ←
        map_err (λ e. from (invalid_ids e)) (recipient_devices hash_ids recipient_device_ids)
    pending ← map_err from (pending_outgoing_in_transaction t message_id)
    outgoing ← ok_or (at_epoch expected_epoch pending) (from (unknown_message message_id))
    channel_id ← map_err from (outgoing_channel t message_id)
    ciphertext ← build outgoing (
        recipient_predecessors_for t channel_id outgoing.device_id outgoing.device_sequence
          recipients.device_ids)
    stored ← map_err from (
        store_resealed channel_id outgoing message_id expected_epoch epoch recipients.device_ids
          ciphertext now t)
    ok (tt, stored)

  abbrev pub reseal_outgoing :
      String
      → ℕ
      → ℕ
      → List String
      → String
      → (PendingOutgoing → RecipientPredecessors → Result E (List ℕ))
      → Tables
      → Result E (Unit {0}) × Tables
  unfolding reseal_in
  reseal_outgoing message_id expected_epoch epoch recipient_device_ids now build =
      in_transaction (reseal_in message_id expected_epoch epoch recipient_device_ids now build)
