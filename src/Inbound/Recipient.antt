-- ===== src/Inbound/Recipient.antt =====
-- crates/hrc-storage/src/ordering.rs: the ordering of one recipient's messages from a device.
use herdr_remote_channel.Prelude.{
  ℕ, zero, suc, String, Bool, true, false, not, ◌&&◌, ◌||◌, Option, none, some, find, map, str_eq,
  leb, if◌then◌else◌,
}
use herdr_remote_channel.Errors.{
  StorageError, unknown_message, inbound_forked, sqlite, Result, ok, err, ok_or, ◌>>=◌,
}
use herdr_remote_channel.Inbound.{InboundMessage, InboxRow, RecipientLink, Tables}
use herdr_remote_channel.Inbound.Run.{Run, and_then, return, throw}
use herdr_remote_channel.Inbound.Queries.{column_eq, select, or_else, any}
use herdr_remote_channel.Inbound.Accept.{insert_accepted}
use herdr_remote_channel.Inbound.Release.{
  HeldMessage, held_message_from_row, waiting_message, Walk, push_unless,
}
use herdr_remote_channel.Inbound.Adopt.{adopt_legacy_held_predecessor}

-- Whether a link belongs to the messages of one device for one recipient.
abbrev pub in_scope : String → String → String → RecipientLink → Bool
in_scope channel_id sender_device recipient_device row =
    str_eq row.channel_id channel_id
    && str_eq row.sender_device sender_device
    && str_eq row.recipient_device recipient_device

unfoldable pub recipient_predecessor_sequence :
    Tables → String → String → String → String → Option ℕ
recipient_predecessor_sequence t channel_id sender_device recipient_device chain_id =
    or_else
      (select (λ row. row.device_sequence)
        (find
          (λ row.
            in_scope channel_id sender_device recipient_device row && str_eq row.chain_id chain_id)
          t.inbound_recipient_link))
      (select (λ row. row.last_sequence)
        (find
          (λ row.
            str_eq row.channel_id channel_id
            && str_eq row.sender_device sender_device
            && str_eq row.last_chain_id chain_id)
          t.inbound_chain))

unfoldable pub recipient_predecessor_accepted :
    String → String → String → String → ℕ → String → Tables → Run StorageError (Bool × Tables)
unfolding adopt_legacy_held_predecessor
recipient_predecessor_accepted channel_id sender_device recipient_device chain_id sequence now t =
    elim (any
        (λ row.
          in_scope channel_id sender_device recipient_device row
          && str_eq row.chain_id chain_id
          && row.is_accepted)
        t.inbound_recipient_link
      || any
          (λ row.
            str_eq row.channel_id channel_id
            && str_eq row.sender_device sender_device
            && str_eq row.last_chain_id chain_id)
          t.inbound_chain) [
            | true ↦ return (true, t)
            | false ↦
                adopt_legacy_held_predecessor channel_id sender_device recipient_device chain_id
                  sequence now t
          ]

unfoldable pub legacy_sender_history_exists : Tables → String → String → Bool
legacy_sender_history_exists t channel_id sender_device =
    any
      (λ row.
        str_eq row.channel_id channel_id
        && str_eq row.sender_device sender_device
        && not (any (λ link. str_eq link.message_id row.message_id) t.inbound_recipient_link))
      t.inbox
    || any
        (λ row.
          str_eq row.channel_id channel_id
          && str_eq row.sender_device sender_device
          && not (any (λ link. str_eq link.message_id row.message_id) t.inbound_recipient_link))
        t.inbound_receipt_link

abbrev pub waits_for_link : String → String → String → String → RecipientLink → Bool
waits_for_link channel_id sender_device recipient_device predecessor row =
    not row.is_accepted
    && in_scope channel_id sender_device recipient_device row
    && column_eq row.previous_chain_id predecessor

unfoldable pub next_recipient_held :
    Tables → String → String → String → String → Option RecipientLink
next_recipient_held t channel_id sender_device recipient_device predecessor =
    find (waits_for_link channel_id sender_device recipient_device predecessor)
      t.inbound_recipient_link

abbrev pending_row : String → InboxRow → Bool
pending_row id row =
    str_eq row.message_id id && elim row.arrival_sequence [ none ↦ true | _ ↦ false ]

abbrev text_column : Option String → Result StorageError String
text_column none = err (sqlite "Invalid column type Null")
text_column (some s) = ok s

-- A NULL `chain_id` or digest, in a row older than migration 002, fails to decode.
abbrev decode_row : InboxRow → Result StorageError HeldMessage
decode_row row = do
  link ← text_column row.chain_id
  digest ← text_column row.ciphertext_sha256
  ok (
      held_message_from_row row.message_id row.device_sequence link row.previous_chain_id digest
        row)

-- `held_message_by_id(…)?.ok_or_else(…)?`.
unfoldable pub held_message_by_id : Tables → String → Result StorageError HeldMessage
unfolding held_message_from_row
held_message_by_id t id =
    ok_or (find (pending_row id) t.inbox) (unknown_message id) >>= λ row. decode_row row

abbrev pub accept_link : String → Bool → RecipientLink → RecipientLink
accept_link id expired row =
    if str_eq row.message_id id
    then record row { is_accepted = true; is_expired = expired }
    else row

-- `UPDATE inbound_recipient_link SET state = 'accepted'`.
unfoldable pub mark_accepted : String → Bool → Tables → Tables
mark_accepted id expired t = record t {
  inbound_recipient_link = map (accept_link id expired) t.inbound_recipient_link;
}

abbrev pub scoped_message : InboundMessage → String → Walk → HeldMessage → Bool → InboundMessage
scoped_message m recipient_device w next expired =
    waiting_message m next (some recipient_device) (some w.link) expired

abbrev pub past_link : Walk → RecipientLink → Walk
past_link w row = record w { link = row.chain_id; sequence = row.device_sequence }

abbrev pub past_released : Walk → RecipientLink → Bool → Walk
past_released w row expired = record {
  link = row.chain_id;
  sequence = row.device_sequence;
  released = push_unless expired row.message_id w.released;
}

-- `if !is_receipt`, for a held link whose message is in `inbox`.
unfoldable pub release_message :
    InboundMessage
    → String
    → String
    → Walk
    → RecipientLink
    → HeldMessage
    → Tables
    → Result StorageError (Walk × Tables)
unfolding waiting_message insert_accepted mark_accepted
release_message m recipient_device now w row next t = do
  let expired = row.is_expired || str_eq next.disposition "expired"
  inserted ← insert_accepted (scoped_message m recipient_device w next expired) now t
  ok (past_released w row expired, mark_accepted row.message_id expired inserted.1)

-- One step of the release loop, on the held link that it found.
unfoldable pub release_link :
    InboundMessage
    → String
    → String
    → Walk
    → RecipientLink
    → Tables
    → Result StorageError (Walk × Tables)
unfolding held_message_by_id release_message mark_accepted
release_link m recipient_device now w row t =
    if row.is_receipt
    then ok (past_link w row, mark_accepted row.message_id row.is_expired t)
    else held_message_by_id t row.message_id >>= λ next.
        release_message m recipient_device now w row next t

-- The release loop of `record_recipient_inbound`.
unfoldable pub release_recipient :
    ℕ → InboundMessage → String → String → Walk → Tables → Run StorageError (Walk × Tables)
unfolding next_recipient_held release_link
release_recipient zero m recipient_device now w t = none
release_recipient (suc fuel) m recipient_device now w t =
    elim (next_recipient_held t m.channel_id m.sender_device recipient_device w.link) [
      | none ↦ return (w, t)
      | some row ↦ elim (leb row.device_sequence w.sequence) [
        | true ↦ throw (inbound_forked m.sender_device row.device_sequence w.link row.message_id)
        | false ↦
            and_then (some (release_link m recipient_device now w row t))
              λ step. release_recipient fuel m recipient_device now step.0 step.1
      ]
    ]
