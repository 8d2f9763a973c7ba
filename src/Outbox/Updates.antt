-- ===== src/Outbox/Updates.antt =====
-- crates/hrc-storage/src/outbox.rs: the operations that change rows in place, and the readings.
use herdr_remote_channel.Prelude.{
  ℕ, suc, String, Bool, true, false, ◌&&◌, Option, none, some, List, [], ◌∷◌, ◌++◌, find, length,
  str_eq, if◌then◌else◌,
}
use herdr_remote_channel.Errors.{StorageError, unknown_message, Result, ok, ok_or, try_then, ◌>>◌}
use herdr_remote_channel.Storage.{OutboxState, reserved, queued, published, gap}
use herdr_remote_channel.Inbound.Queries.{any, filter, select}
use herdr_remote_channel.Outbox.{RecipientRow, OutboxRow, RecipientRow, Tables}
use herdr_remote_channel.Outbox.Queries.{update_where, expect_row, recipient_clash}
use herdr_remote_channel.Outbox.Compose.{in_transaction}
use herdr_remote_channel.Outbox.Reseal.{is_pending_at}

-- An UPDATE that must find a row.
unfoldable pub update_row :
    (OutboxRow → Bool)
    → (OutboxRow → OutboxRow)
    → String
    → Tables
    → Result StorageError (Unit {0}) × Tables
unfolding update_where
update_row chosen change message_id t =
    try_then (expect_row chosen message_id t.outbox) t
      λ _. (ok tt, record t { outbox = update_where chosen change t.outbox })

abbrev pub has_id : String → OutboxRow → Bool
has_id message_id row = str_eq row.message_id message_id

-- `state IN ('reserved', 'queued')`.
abbrev pub may_queue : OutboxState → Bool
may_queue reserved = true
may_queue queued = true
may_queue _ = false

abbrev pub is_queueable : String → OutboxRow → Bool
is_queueable message_id row = str_eq row.message_id message_id && may_queue row.state

-- `COALESCE(?3, reseal_material)`.
abbrev pub coalesce_bytes : Option (List ℕ) → Option (List ℕ) → Option (List ℕ)
coalesce_bytes none stored = stored
coalesce_bytes (some material) stored = some material

abbrev pub put_in_queue : List ℕ → Option (List ℕ) → String → OutboxRow → OutboxRow
put_in_queue ciphertext material now row = record row {
  ciphertext = some ciphertext;
  reseal_material = coalesce_bytes material row.reseal_material;
  state = queued;
  updated_at = now;
}

unfoldable pub queue_outgoing_resealable :
    String → List ℕ → Option (List ℕ) → String → Tables → Result StorageError (Unit {0}) × Tables
unfolding update_row
queue_outgoing_resealable message_id ciphertext material now =
    update_row (is_queueable message_id) (put_in_queue ciphertext material now) message_id

abbrev pub queue_outgoing :
    String → List ℕ → String → Tables → Result StorageError (Unit {0}) × Tables
unfolding queue_outgoing_resealable
queue_outgoing message_id ciphertext now = queue_outgoing_resealable message_id ciphertext none now

-- `ON CONFLICT (message_id, device_id) DO NOTHING`.
unfoldable pub add_recipients : String → List String → List RecipientRow → List RecipientRow
add_recipients message_id [] links = links
add_recipients message_id (device_id ∷ devices) links =
    let link : RecipientRow = record { message_id = message_id; device_id = device_id } in
    if any (recipient_clash link) links
    then add_recipients message_id devices links
    else add_recipients message_id devices (links ++ (link ∷ []))

abbrev pub with_facts : String → String → OutboxRow → OutboxRow
with_facts thread_id kind row = record row { thread_id = some thread_id; kind = some kind }

unfoldable pub record_facts_in :
    String → String → String → List String → Tables → Result StorageError (Unit {0} × Tables)
unfolding update_where add_recipients
record_facts_in message_id thread_id kind devices t = do
  expect_row (has_id message_id) message_id t.outbox
  ok (
    tt,
    record t {
      outbox = update_where (has_id message_id) (with_facts thread_id kind) t.outbox;
      outbox_recipient = add_recipients message_id devices t.outbox_recipient;
    },
  )

abbrev pub record_sent_facts :
    String → String → String → List String → Tables → Result StorageError (Unit {0}) × Tables
unfolding record_facts_in
record_sent_facts message_id thread_id kind devices =
    in_transaction (record_facts_in message_id thread_id kind devices)

abbrev pub replaced : ℕ → List ℕ → String → OutboxRow → OutboxRow
replaced epoch ciphertext now row = record row {
  roster_epoch = epoch;
  ciphertext = some ciphertext;
  updated_at = now;
}

unfoldable pub replace_outgoing_ciphertext :
    String → ℕ → ℕ → List ℕ → String → Tables → Result StorageError (Unit {0}) × Tables
unfolding update_row
replace_outgoing_ciphertext message_id expected_epoch epoch ciphertext now =
    update_row (is_pending_at message_id expected_epoch) (replaced epoch ciphertext now) message_id

abbrev pub as_published : String → OutboxRow → OutboxRow
as_published now row = record row { state = published; updated_at = now; last_error = none }

unfoldable pub mark_published : String → String → Tables → Result StorageError (Unit {0}) × Tables
unfolding update_row
mark_published message_id now = update_row (has_id message_id) (as_published now) message_id

abbrev pub with_failure : String → String → OutboxRow → OutboxRow
with_failure error now row = record row {
  attempts = suc row.attempts;
  last_error = some error;
  updated_at = now;
}

-- The UPDATE returns the number of attempts that it leaves.
unfoldable pub record_attempt_failure :
    String → String → String → Tables → Result StorageError ℕ × Tables
unfolding update_where
record_attempt_failure message_id error now t =
    let rows = update_where (has_id message_id) (with_failure error now) t.outbox in
    try_then
      (ok_or (select (λ row. row.attempts) (find (has_id message_id) rows))
        (unknown_message message_id))
      t λ attempts. (ok attempts, record t { outbox = rows })

-- `channel_id = ?1 AND state = 'reserved' AND ciphertext IS NULL`.
abbrev pub is_unbuilt : Option (List ℕ) → Bool
is_unbuilt none = true
is_unbuilt (some _) = false

abbrev pub is_reserved : OutboxState → Bool
is_reserved reserved = true
is_reserved _ = false

abbrev pub is_abandoned : String → OutboxRow → Bool
is_abandoned channel_id row =
    str_eq row.channel_id channel_id && is_reserved row.state && is_unbuilt row.ciphertext

abbrev pub as_gap : String → OutboxRow → OutboxRow
as_gap now row = record row { state = gap; updated_at = now }

-- The number of rows that were marked, and the tables.
unfoldable pub recover_reservations : String → String → Tables → ℕ × Tables
unfolding update_where
recover_reservations channel_id now t = (
  length (filter (is_abandoned channel_id) t.outbox),
  record t { outbox = update_where (is_abandoned channel_id) (as_gap now) t.outbox },
)
