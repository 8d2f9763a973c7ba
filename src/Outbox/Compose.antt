-- ===== src/Outbox/Compose.antt =====
-- crates/hrc-storage/src/outbox.rs: `allocate_outgoing` and `compose_outgoing`, each one
-- transaction, which leaves nothing behind when it fails.
use herdr_remote_channel.Prelude.{
  ℕ, String, Bool, false, ◌&&◌, ◌||◌, Option, none, some, List, [], str_eq, ◌==◌,
}
use herdr_remote_channel.Errors.{
  ProtocolError, StorageError, invalid_ids, Result, ok, err, map_err, ◌>>=◌, ◌>>◌,
}
use herdr_remote_channel.Storage.{reserved, queued}
use herdr_remote_channel.Inbound.Queries.{insert_unique}
use herdr_remote_channel.Outbox.{OutgoingReservation, OutgoingBuild, OutboxRow, Tables, ChainLink}
use herdr_remote_channel.Outbox.Queries.{
  ensure_channel, increment_device_sequence, set_last_allocated_chain, latest_publishable_chain,
  recipient_predecessors_for, replace_recipient_facts, chain_id_for,
}
use herdr_remote_channel.Outbox.Recipients.{recipient_devices}

-- A transaction commits what it wrote when it succeeds, and is rolled back when it fails.
abbrev pub commit {ℓ κ} :
    {E : Type ℓ} {A : Type κ} → Tables → Result E (A × Tables) → Result E A × Tables
commit t (ok (a, after)) = (ok a, after)
commit t (err e) = (err e, t)

abbrev pub in_transaction {ℓ κ} :
    {E : Type ℓ} {A : Type κ} → (Tables → Result E (A × Tables)) → Tables → Result E A × Tables
in_transaction body t = commit t (body t)

-- The PRIMARY KEY and the UNIQUE constraints of `outbox`.
abbrev pub outbox_clash : OutboxRow → OutboxRow → Bool
outbox_clash new old =
    str_eq old.message_id new.message_id
    || (str_eq old.channel_id new.channel_id
        && ((str_eq old.device_id new.device_id && old.device_sequence == new.device_sequence)
            || str_eq old.chain_id new.chain_id))

abbrev pub insert_outbox : OutboxRow → Tables → Result StorageError Tables
insert_outbox row t = do
  rows ← insert_unique outbox_clash row t.outbox
  ok (record t { outbox = rows })

-- The row that `allocate_outgoing` inserts, with the columns it does not name at their defaults.
abbrev pub reserved_row : String → String → OutgoingReservation → String → String → OutboxRow
reserved_row channel_id device_id r payload_hash now = record {
  message_id = r.message_id;
  channel_id = channel_id;
  device_id = device_id;
  device_sequence = r.device_sequence;
  chain_id = r.chain_id;
  previous_chain_id = r.previous_chain_id;
  roster_epoch = r.roster_epoch;
  payload_hash = payload_hash;
  ciphertext = none;
  reseal_material = none;
  thread_id = none;
  kind = none;
  in_reply_to = none;
  state = reserved;
  attempts = 0;
  last_error = none;
  created_at = now;
  updated_at = now;
  recipient_order_stale = false;
}

-- What the caller of `compose_outgoing` says of the message.
pub record Composition : Type 0 where
  pub channel_id : String
  pub device_id : String
  pub message_id : String
  pub roster_epoch : ℕ
  pub payload_hash : String
  pub thread_id : String
  pub kind : String
  pub in_reply_to : Option String
  pub recipient_device_ids : List String
  pub now : String

-- The reservation under a number, with the links before it in the tables that hold the number.
unfoldable pub reservation_of :
    Tables → Composition → List String → ℕ → String → OutgoingReservation
unfolding latest_publishable_chain recipient_predecessors_for
reservation_of t c devices sequence chain_id = record {
  message_id = c.message_id;
  device_sequence = sequence;
  chain_id = chain_id;
  previous_chain_id = latest_publishable_chain t c.channel_id c.device_id sequence;
  roster_epoch = c.roster_epoch;
  recipient_previous_chain_ids =
      recipient_predecessors_for t c.channel_id c.device_id sequence devices;
}

abbrev pub queued_row : Composition → OutgoingReservation → OutgoingBuild → OutboxRow
queued_row c r built = record (reserved_row c.channel_id c.device_id r c.payload_hash c.now) {
  ciphertext = some built.ciphertext;
  reseal_material = some built.reseal_material;
  thread_id = some c.thread_id;
  kind = some c.kind;
  in_reply_to = c.in_reply_to;
  state = queued;
}

module _ (hash_link : ChainLink → Result ProtocolError String)
    (hash_ids : List String → Result ProtocolError String) where
  unfoldable pub allocate_in :
      String
      → String
      → String
      → ℕ
      → String
      → String
      → Tables
      → Result StorageError (OutgoingReservation × Tables)
  unfolding increment_device_sequence chain_id_for set_last_allocated_chain
  allocate_in channel_id device_id message_id roster_epoch payload_hash now t = do
    ensure_channel t channel_id
    numbered ← increment_device_sequence channel_id device_id t
    let sequence = numbered.0.0
    chain_id ← chain_id_for hash_link channel_id device_id sequence message_id
    let reservation : OutgoingReservation = record {
      message_id = message_id;
      device_sequence = sequence;
      chain_id = chain_id;
      previous_chain_id = numbered.0.1;
      roster_epoch = roster_epoch;
      recipient_previous_chain_ids = [];
    }
    inserted ←
        insert_outbox (reserved_row channel_id device_id reservation payload_hash now)
          (set_last_allocated_chain channel_id device_id chain_id numbered.1)
    ok (reservation, inserted)

  abbrev pub allocate_outgoing :
      String
      → String
      → String
      → ℕ
      → String
      → String
      → Tables
      → Result StorageError OutgoingReservation × Tables
  unfolding allocate_in
  allocate_outgoing channel_id device_id message_id roster_epoch payload_hash now =
      in_transaction (allocate_in channel_id device_id message_id roster_epoch payload_hash now)

  -- The caller's error type `E`, into which a storage error converts.
  module _ {ℓ} {E : Type ℓ} (from : StorageError → E) where
    -- What `compose_outgoing` reserves, in the tables that hold its number.
    unfoldable pub reserve :
        Composition → List String → Tables → Result StorageError (OutgoingReservation × Tables)
    unfolding increment_device_sequence chain_id_for latest_publishable_chain
        recipient_predecessors_for
    reserve c devices t = do
      ensure_channel t c.channel_id
      numbered ← increment_device_sequence c.channel_id c.device_id t
      let sequence = numbered.0.0
      chain_id ← chain_id_for hash_link c.channel_id c.device_id sequence c.message_id
      ok (reservation_of numbered.1 c devices sequence chain_id, numbered.1)

    -- What `compose_outgoing` writes once the message is built.
    unfoldable pub store_composed :
        Composition
        → List String
        → OutgoingReservation
        → OutgoingBuild
        → Tables
        → Result StorageError Tables
    unfolding replace_recipient_facts set_last_allocated_chain
    store_composed c devices r built t = do
      inserted ← insert_outbox (queued_row c r built) t
      linked ← replace_recipient_facts c.message_id devices inserted
      ok (set_last_allocated_chain c.channel_id c.device_id r.chain_id linked)

    unfoldable pub compose_in :
        Composition
        → (OutgoingReservation → Result E OutgoingBuild)
        → Tables
        → Result E (OutgoingReservation × Tables)
    unfolding recipient_devices reserve store_composed
    compose_in c build t = do
      recipients ←
          map_err (λ e. from (invalid_ids e)) (recipient_devices hash_ids c.recipient_device_ids)
      held ← map_err from (reserve c recipients.device_ids t)
      built ← build held.0
      stored ← map_err from (store_composed c recipients.device_ids held.0 built held.1)
      ok (held.0, stored)

    abbrev pub compose_outgoing :
        Composition
        → (OutgoingReservation → Result E OutgoingBuild)
        → Tables
        → Result E OutgoingReservation × Tables
    unfolding compose_in
    compose_outgoing c build = in_transaction (compose_in c build)
