-- ===== src/Inbound/Accept.antt =====
-- crates/hrc-storage/src/ordering.rs and context.rs: holding a message and accepting one.
use herdr_remote_channel.Prelude.{
  ℕ, suc, String, Bool, true, false, not, ◌&&◌, ◌||◌, Option, none, some, List, [], ◌∷◌, ◌++◌, map,
  str_eq, ltb, if◌then◌else◌,
}
use herdr_remote_channel.Errors.{StorageError, Result, ok, ◌>>=◌}
use herdr_remote_channel.Inbound.{
  InboundContext, InboundMessage, InboundOutcome, held, InboxRow, HoldRow, ContextRow, Tables,
}
use herdr_remote_channel.Inbound.Queries.{any, filter, insert_unique, inbox_clash, hold_clash}

-- The row that an INSERT into `inbox` writes for a message.
unfoldable pub inbox_row : InboundMessage → String → Option ℕ → InboxRow
inbox_row m now arrival = record {
  message_id = m.message_id;
  channel_id = m.channel_id;
  sender_principal = m.sender_principal;
  sender_device = m.sender_device;
  kind = m.kind;
  thread_id = m.thread_id;
  in_reply_to = m.in_reply_to;
  roster_epoch = m.roster_epoch;
  endpoint = m.endpoint;
  ciphertext_bytes = m.ciphertext_bytes;
  plaintext_bytes = m.plaintext_bytes;
  created_at = m.created_at;
  expires_at = m.expires_at;
  received_at = now;
  body = if not m.expired then some m.body else none;
  disposition = if m.expired then "expired" else "quarantined";
  device_sequence = m.device_sequence;
  chain_id = some m.chain_id;
  previous_chain_id = m.previous_chain_id;
  ciphertext_sha256 = some m.ciphertext_sha256;
  arrival_sequence = arrival;
  attachment_count = m.attachment_count;
  attachment_bytes = m.attachment_bytes;
  prompt_request = m.prompt_request;
}

abbrev is_receipt_kind : InboundMessage → Bool
is_receipt_kind m = str_eq m.kind "receipt"

unfoldable pub store_held_inbox : InboundMessage → String → Tables → Result StorageError Tables
unfolding inbox_row
store_held_inbox m now t =
    if str_eq m.kind "receipt"
    then ok t
    else if any (λ row. str_eq row.message_id m.message_id) t.inbox
    then ok t
    else do
      rows ← insert_unique inbox_clash (inbox_row m now none) t.inbox
      ok (record t { inbox = rows })

abbrev context_row : String → InboundContext → ContextRow
context_row id c = record {
  message_id = id;
  package_id = c.package_id;
  digest = c.digest;
  manifest = c.manifest;
}

abbrev add_context : String → InboundContext → List ContextRow → List ContextRow
add_context id c rows =
    if any (λ row. str_eq row.message_id id) rows then rows else rows ++ (context_row id c ∷ [])

unfoldable pub store_inbound_context : InboundMessage → Tables → Tables
store_inbound_context m t = if str_eq m.kind "receipt" || m.expired then t else elim m.context [
  | none ↦ t
  | some c ↦ record t { inbound_context = add_context m.message_id c t.inbound_context }
]

abbrev pub hold_row : InboundMessage → String → HoldRow
hold_row m now = record {
  message_id = m.message_id;
  channel_id = m.channel_id;
  sender_device = m.sender_device;
  device_sequence = m.device_sequence;
  chain_id = m.chain_id;
  previous_chain_id = m.previous_chain_id;
  ciphertext_sha256 = m.ciphertext_sha256;
  ciphertext = m.ciphertext;
  held_at = now;
}

-- `INSERT INTO inbound_hold … ON CONFLICT (message_id) DO NOTHING`.
unfoldable pub insert_hold : InboundMessage → String → Tables → Result StorageError Tables
insert_hold m now t =
    if any (λ row. str_eq row.message_id m.message_id) t.inbound_hold then ok t else do
      rows ← insert_unique hold_clash (hold_row m now) t.inbound_hold
      ok (record t { inbound_hold = rows })

-- `unwrap_or_default` on an optional text.
abbrev pub or_default : Option String → String
or_default none = ""
or_default (some s) = s

-- The outcome of `hold`, which is the same whether or not the message is a receipt.
unfoldable pub hold :
    InboundMessage → String → Tables → Result StorageError (InboundOutcome × Tables)
unfolding insert_hold store_held_inbox
hold m now t = do
  parked ← insert_hold m now t
  stored ← store_held_inbox m now parked
  ok (held (or_default m.previous_chain_id), stored)

-- `DELETE FROM inbound_hold WHERE message_id = ?`.
unfoldable pub delete_hold : String → Tables → Tables
delete_hold id t = record t {
  inbound_hold = filter (λ row. not (str_eq row.message_id id)) t.inbound_hold;
}

abbrev max_arrival_of : ℕ → Option ℕ → ℕ
max_arrival_of seen none = seen
max_arrival_of seen (some n) = if ltb seen n then n else seen

-- `COALESCE(MAX(arrival_sequence), 0)` over the rows of a channel.
unfoldable pub max_arrival : String → List InboxRow → ℕ
max_arrival channel_id [] = 0
max_arrival channel_id (row ∷ rows) =
    if str_eq row.channel_id channel_id
    then max_arrival_of (max_arrival channel_id rows) row.arrival_sequence
    else max_arrival channel_id rows

abbrev pub is_waiting : String → InboxRow → Bool
is_waiting id row =
    str_eq row.message_id id && elim row.arrival_sequence [ none ↦ true | _ ↦ false ]

abbrev pub give_arrival : String → ℕ → String → InboxRow → InboxRow
give_arrival id n now row =
    if is_waiting id row then record row { arrival_sequence = some n; received_at = now } else row

-- The UPDATE, or the INSERT when it changed no row.
unfoldable pub place_accepted : InboundMessage → String → ℕ → Tables → Result StorageError Tables
unfolding inbox_row
place_accepted m now n t =
    if any (is_waiting m.message_id) t.inbox
    then ok (record t { inbox = map (give_arrival m.message_id n now) t.inbox })
    else do
      rows ← insert_unique inbox_clash (inbox_row m now (some n)) t.inbox
      ok (record t { inbox = rows })

unfoldable pub insert_accepted :
    InboundMessage → String → Tables → Result StorageError (Option ℕ × Tables)
unfolding max_arrival place_accepted delete_hold
insert_accepted m now t =
    if str_eq m.kind "receipt" then ok (none, delete_hold m.message_id t) else do
      let n = suc (max_arrival m.channel_id t.inbox)
      placed ← place_accepted m now n t
      ok (some n, delete_hold m.message_id placed)
