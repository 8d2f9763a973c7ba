-- ===== src/Outbox/Readings.antt =====
-- crates/hrc-storage/src/outbox.rs: what is read from the tables of outgoing messages.
use herdr_remote_channel.Prelude.{
  String, Bool, ◌&&◌, Option, some, List, [], ◌∷◌, ◌++◌, find, map, str_eq, ltb, if◌then◌else◌,
}
use herdr_remote_channel.Errors.{StorageError, Result, ok, ◌>>=◌}
use herdr_remote_channel.Storage.{OutboxState}
use herdr_remote_channel.Inbound.Queries.{filter, select}
use herdr_remote_channel.Outbox.{SentMessageFacts, PendingOutgoing, OutboxRow, Tables}
use herdr_remote_channel.Outbox.Queries.{
  is_pending, is_pending_message, pending_from_row, optional_row,
}
use herdr_remote_channel.Outbox.Recipients.{sort_ids}
use herdr_remote_channel.Outbox.Updates.{has_id}

unfoldable pub outbox_state : Tables → String → Option OutboxState
outbox_state t message_id = select (λ row. row.state) (find (has_id message_id) t.outbox)

-- `ORDER BY device_sequence`. Rows of one number, which belong to several devices, stay in the order
-- of the table.
abbrev insert_by_sequence : OutboxRow → List OutboxRow → List OutboxRow
insert_by_sequence row [] = row ∷ []
insert_by_sequence row (x ∷ xs) =
    let rest = insert_by_sequence row xs in
    if ltb x.device_sequence row.device_sequence then x ∷ rest else row ∷ x ∷ xs

unfoldable pub by_sequence : List OutboxRow → List OutboxRow
by_sequence [] = []
by_sequence (row ∷ rows) = insert_by_sequence row (by_sequence rows)

abbrev pub is_pending_in : String → OutboxRow → Bool
is_pending_in channel_id row = str_eq row.channel_id channel_id && is_pending row.state

unfoldable pub pending_outgoing : Tables → String → List String
unfolding by_sequence
pending_outgoing t channel_id =
    map (λ row. row.message_id) (by_sequence (filter (is_pending_in channel_id) t.outbox))

abbrev pub read_rows : List OutboxRow → Result StorageError (List PendingOutgoing)
read_rows [] = ok []
read_rows (row ∷ rows) = do
  outgoing ← pending_from_row row
  rest ← read_rows rows
  ok (outgoing ∷ rest)

unfoldable pub pending_outgoing_records :
    Tables → String → Result StorageError (List PendingOutgoing)
unfolding by_sequence
pending_outgoing_records t channel_id =
    read_rows (by_sequence (filter (is_pending_in channel_id) t.outbox))

unfoldable pub pending_outgoing_record :
    Tables → String → Result StorageError (Option PendingOutgoing)
pending_outgoing_record t message_id = optional_row (find (is_pending_message message_id) t.outbox)

-- The facts of one sent message, when they were recorded and it has recipients.
abbrev facts_of : String → Option String → Option String → List String → List SentMessageFacts
facts_of message_id (some thread_id) (some kind) (device ∷ devices) =
    record {
      message_id = message_id;
      thread_id = thread_id;
      kind = kind;
      recipient_device_ids = device ∷ devices;
    }
    ∷ []
facts_of message_id _ _ _ = []

-- `SELECT device_id FROM outbox_recipient WHERE message_id = ?1 ORDER BY device_id`.
unfoldable pub recipients_of : Tables → String → List String
unfolding sort_ids
recipients_of t message_id = sort_ids (
    map (λ link. link.device_id)
      (filter (λ link. str_eq link.message_id message_id) t.outbox_recipient))

abbrev collect_facts : Tables → List OutboxRow → List SentMessageFacts
unfolding recipients_of
collect_facts t [] = []
collect_facts t (row ∷ rows) =
    facts_of row.message_id row.thread_id row.kind (recipients_of t row.message_id)
    ++ collect_facts t rows

unfoldable pub sent_messages : Tables → String → List SentMessageFacts
unfolding collect_facts
sent_messages t channel_id =
    collect_facts t (filter (λ row. str_eq row.channel_id channel_id) t.outbox)
