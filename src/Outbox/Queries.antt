-- ===== src/Outbox/Queries.antt =====
-- crates/hrc-storage/src/outbox.rs: the statements that the operations on outgoing messages share.
use herdr_remote_channel.Prelude.{
  ℕ, suc, String, Bool, true, false, not, ◌&&◌, Option, none, some, List, [], ◌∷◌, ◌++◌, find,
  contains, str_eq, ltb, if◌then◌else◌,
}
use herdr_remote_channel.Prelude.BTreeMap.{insert}
use herdr_remote_channel.Errors.{
  ProtocolError, StorageError, unknown_channel, unknown_message, sqlite, invalid_ids, Result, ok,
  ok_or, reject_if, map_err, ◌>>=◌,
}
use herdr_remote_channel.Storage.{OutboxState, queued, publishing, published}
use herdr_remote_channel.Inbound.Queries.{any, filter, insert_unique, select}
use herdr_remote_channel.Outbox.{
  RecipientPredecessors, PendingOutgoing, OutboxRow, RecipientRow, SequenceRow, Tables, ChainLink,
}

module _ {ℓ} {A : Type ℓ} where
  -- `UPDATE … WHERE`: each row that passes the test is changed.
  unfoldable pub update_where : (A → Bool) → (A → A) → List A → List A
  update_where test change [] = []
  update_where test change (x ∷ xs) = (if test x then change x else x) ∷ update_where test change xs

-- `if updated == 0 { return Err(UnknownMessage) }`, on the rows that an UPDATE tests.
abbrev pub expect_row :
    (OutboxRow → Bool) → String → List OutboxRow → Result StorageError (Unit {0})
expect_row test message_id rows = reject_if (not (any test rows)) (unknown_message message_id)

-- `state IN ('queued', 'publishing')`.
abbrev pub is_pending : OutboxState → Bool
is_pending queued = true
is_pending publishing = true
is_pending _ = false

-- `state IN ('queued', 'publishing', 'published')`.
abbrev pub is_publishable : OutboxState → Bool
is_publishable published = true
is_publishable state = is_pending state

abbrev pub ensure_channel : Tables → String → Result StorageError (Unit {0})
ensure_channel t channel_id =
    reject_if (not (contains t.channel channel_id)) (unknown_channel channel_id)

-- The row of `device_sequence` under its primary key.
abbrev pub own_sequence : String → String → SequenceRow → Bool
own_sequence channel_id device_id row =
    str_eq row.channel_id channel_id && str_eq row.device_id device_id

-- `ON CONFLICT (channel_id, device_id) DO NOTHING`.
unfoldable pub start_sequence : String → String → List SequenceRow → List SequenceRow
start_sequence channel_id device_id rows =
    if any (own_sequence channel_id device_id) rows
    then rows
    else rows
      ++ (record {
        channel_id = channel_id;
        device_id = device_id;
        last_sequence = 0;
        last_chain_id = none;
      }
          ∷ [])

abbrev pub next_sequence : SequenceRow → SequenceRow
next_sequence row = record row { last_sequence = suc row.last_sequence }

-- The number given out, and the link before it.
unfoldable pub increment_device_sequence :
    String → String → Tables → Result StorageError ((ℕ × Option String) × Tables)
unfolding start_sequence update_where
increment_device_sequence channel_id device_id t = do
  let mine = own_sequence channel_id device_id
  let rows = update_where mine next_sequence (start_sequence channel_id device_id t.device_sequence)
  row ← ok_or (find mine rows) (sqlite "Query returned no rows")
  ok ((row.last_sequence, row.last_chain_id), record t { device_sequence = rows })

unfoldable pub set_last_allocated_chain : String → String → String → Tables → Tables
unfolding update_where
set_last_allocated_chain channel_id device_id chain_id t = record t {
  device_sequence =
      update_where (own_sequence channel_id device_id)
        (λ row. record row { last_chain_id = some chain_id }) t.device_sequence;
}

-- `ORDER BY device_sequence DESC LIMIT 1`.
abbrev pub newer : OutboxRow → Option OutboxRow → OutboxRow
newer row none = row
newer row (some later) = if ltb row.device_sequence later.device_sequence then later else row

unfoldable pub latest : (OutboxRow → Bool) → List OutboxRow → Option OutboxRow
latest test [] = none
latest test (row ∷ rows) =
    let rest = latest test rows in if test row then some (newer row rest) else rest

-- A row of this device that a later link may name.
abbrev pub precedes : String → String → ℕ → OutboxRow → Bool
precedes channel_id device_id before_sequence row =
    str_eq row.channel_id channel_id
    && str_eq row.device_id device_id
    && ltb row.device_sequence before_sequence
    && is_publishable row.state

abbrev pub chain_of : OutboxRow → String
chain_of row = row.chain_id

unfoldable pub latest_publishable_chain : Tables → String → String → ℕ → Option String
unfolding latest
latest_publishable_chain t channel_id device_id before_sequence =
    select chain_of (latest (precedes channel_id device_id before_sequence) t.outbox)

-- `JOIN outbox_recipient ON outbox_recipient.message_id = outbox.message_id`.
abbrev pub is_sent_to : List RecipientRow → String → OutboxRow → Bool
is_sent_to links recipient row =
    any (λ link. str_eq link.message_id row.message_id && str_eq link.device_id recipient) links

abbrev pub precedes_to : List RecipientRow → String → String → ℕ → String → OutboxRow → Bool
precedes_to links channel_id device_id before_sequence recipient row =
    precedes channel_id device_id before_sequence row && is_sent_to links recipient row

-- The link before `before_sequence` on the chain to one recipient.
unfoldable pub predecessor_for : Tables → String → String → ℕ → String → Option String
unfolding latest
predecessor_for t channel_id device_id before_sequence recipient = select chain_of (
    latest
      (λ row.
        precedes channel_id device_id before_sequence row
        && is_sent_to t.outbox_recipient recipient row)
      t.outbox)

-- The loop over the recipients, which fills a `BTreeMap`.
unfoldable pub collect_predecessors :
    (String → Option String) → List String → RecipientPredecessors → RecipientPredecessors
unfolding insert
collect_predecessors predecessor [] filled = filled
collect_predecessors predecessor (recipient ∷ recipients) filled =
    collect_predecessors predecessor recipients (insert recipient (predecessor recipient) filled)

unfoldable pub recipient_predecessors_for :
    Tables → String → String → ℕ → List String → RecipientPredecessors
unfolding collect_predecessors predecessor_for
recipient_predecessors_for t channel_id device_id before_sequence recipients =
    collect_predecessors (predecessor_for t channel_id device_id before_sequence) recipients []

-- The primary key of `outbox_recipient`.
abbrev pub recipient_clash : RecipientRow → RecipientRow → Bool
recipient_clash new old = str_eq old.message_id new.message_id && str_eq old.device_id new.device_id

unfoldable pub insert_recipients :
    String → List String → List RecipientRow → Result StorageError (List RecipientRow)
insert_recipients message_id [] links = ok links
insert_recipients message_id (device_id ∷ devices) links =
    insert_unique recipient_clash (record { message_id = message_id; device_id = device_id }) links
    >>= insert_recipients message_id devices

unfoldable pub replace_recipient_facts : String → List String → Tables → Result StorageError Tables
unfolding insert_recipients
replace_recipient_facts message_id devices t = do
  let others = filter (λ link. not (str_eq link.message_id message_id)) t.outbox_recipient
  links ← insert_recipients message_id devices others
  ok (record t { outbox_recipient = links })

unfoldable pub outgoing_channel : Tables → String → Result StorageError String
outgoing_channel t message_id =
    ok_or (select (λ row. row.channel_id) (find (λ row. str_eq row.message_id message_id) t.outbox))
      (unknown_message message_id)

-- The columns of a pending row. Reading a NULL ciphertext as bytes is an error.
abbrev pub pending_from_row : OutboxRow → Result StorageError PendingOutgoing
pending_from_row row = do
  ciphertext ← ok_or row.ciphertext (sqlite "Invalid column type Null")
  ok (record {
    message_id = row.message_id;
    device_id = row.device_id;
    device_sequence = row.device_sequence;
    chain_id = row.chain_id;
    previous_chain_id = row.previous_chain_id;
    roster_epoch = row.roster_epoch;
    payload_hash = row.payload_hash;
    created_at = row.created_at;
    ciphertext = ciphertext;
    reseal_material = row.reseal_material;
    recipient_order_stale = row.recipient_order_stale;
  })

abbrev pub optional_row : Option OutboxRow → Result StorageError (Option PendingOutgoing)
optional_row none = ok none
optional_row (some row) = pending_from_row row >>= λ outgoing. ok (some outgoing)

abbrev pub is_pending_message : String → OutboxRow → Bool
is_pending_message message_id row = str_eq row.message_id message_id && is_pending row.state

unfoldable pub pending_outgoing_in_transaction :
    Tables → String → Result StorageError (Option PendingOutgoing)
pending_outgoing_in_transaction t message_id =
    optional_row (find (is_pending_message message_id) t.outbox)

-- `chain_id_for`, over `canonical_sha256_hex` at the JSON of a link.
unfoldable pub chain_id_for :
    (ChainLink → Result ProtocolError String)
    → String
    → String
    → ℕ
    → String
    → Result StorageError String
chain_id_for hash channel_id device_id device_sequence message_id = map_err invalid_ids (
    hash (record {
      domain = "hrc/v1/message-chain";
      channel_id = channel_id;
      sender_device_id = device_id;
      device_sequence = device_sequence;
      message_id = message_id;
    }))
