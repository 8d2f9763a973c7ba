-- ===== src/Inbound/Adopt.antt =====
-- crates/hrc-storage/src/ordering.rs: a message ordered for one recipient may name a predecessor
-- that was held under the older, device-wide ordering; its held chain is then adopted as accepted.
use herdr_remote_channel.Prelude.{
  length, ℕ, zero, suc, String, Bool, true, false, not, ◌&&◌, ◌||◌, Option, none, some, List, [],
  ◌∷◌, find, map, contains, str_eq, leb, ◌==◌, if◌then◌else◌,
}
use herdr_remote_channel.Errors.{StorageError, inbound_forked, Result, ok, reject_if, ◌>>=◌, ◌>>◌}
use herdr_remote_channel.Inbound.{InboxRow, HoldRow, RecipientLink, ChainHead, Tables}
use herdr_remote_channel.Inbound.Run.{Run, and_then, return, throw}
use herdr_remote_channel.Inbound.Queries.{
  column_eq, any, filter, insert_unique, recipient_clash, chain_head,
}
use herdr_remote_channel.Inbound.Accept.{delete_hold, max_arrival, or_default}

pub record LegacyHeldPredecessor : Type 0 where
  pub message_id : String
  pub device_sequence : ℕ
  pub chain_id : String
  pub previous_chain_id : Option String
  pub ciphertext_sha256 : String
  pub is_receipt : Bool
  pub is_expired : Bool

abbrev row_expired : Option InboxRow → Bool
row_expired none = false
row_expired (some row) = str_eq row.disposition "expired"

abbrev predecessor_of : Tables → HoldRow → LegacyHeldPredecessor
predecessor_of t row = record {
  message_id = row.message_id;
  device_sequence = row.device_sequence;
  chain_id = row.chain_id;
  previous_chain_id = row.previous_chain_id;
  ciphertext_sha256 = row.ciphertext_sha256;
  is_receipt = any (λ receipt. str_eq receipt.message_id row.message_id) t.inbound_receipt_link;
  is_expired = row_expired (find (λ message. str_eq message.message_id row.message_id) t.inbox);
}

abbrev pub holds_link : String → String → String → HoldRow → Bool
holds_link channel_id sender_device chain_id row =
    str_eq row.channel_id channel_id
    && str_eq row.sender_device sender_device
    && str_eq row.chain_id chain_id

unfoldable pub held_at_link : Tables → String → String → String → Option LegacyHeldPredecessor
held_at_link t channel_id sender_device chain_id =
    elim (find (holds_link channel_id sender_device chain_id) t.inbound_hold) [
      | none ↦ none
      | some row ↦ some (predecessor_of t row)
    ]

-- The loop that collects the held chain, newest first; `chain` holds what was pushed, the last
-- pushed first, which is the order after `reverse`.
unfoldable pub collect_held :
    ℕ
    → Tables
    → String
    → String
    → String
    → ℕ
    → List String
    → String
    → List LegacyHeldPredecessor
    → Run StorageError (List LegacyHeldPredecessor)
unfolding held_at_link
collect_held zero t channel_id sender_device arriving sequence seen current chain = none
collect_held (suc fuel) t channel_id sender_device arriving sequence seen current chain =
    elim (contains seen current) [
      | true ↦ throw (inbound_forked sender_device sequence current arriving)
      | false ↦ elim (held_at_link t channel_id sender_device current) [
        | none ↦ return chain
        | some held ↦ elim held.previous_chain_id [
          | none ↦ return (held ∷ chain)
          | some previous ↦
              collect_held fuel t channel_id sender_device arriving sequence (current ∷ seen)
                previous (held ∷ chain)
        ]
      ]
    ]

-- The loop over `windows(2)`.
unfoldable pub check_links :
    String → LegacyHeldPredecessor → List LegacyHeldPredecessor → Result StorageError (Unit {0})
check_links sender_device first [] = ok tt
check_links sender_device first (second ∷ rest) =
    reject_if
      (not (column_eq second.previous_chain_id first.chain_id)
        || leb second.device_sequence first.device_sequence)
      (inbound_forked sender_device second.device_sequence first.chain_id second.message_id)
    >> check_links sender_device second rest

abbrev pub last_of : LegacyHeldPredecessor → List LegacyHeldPredecessor → LegacyHeldPredecessor
last_of first [] = first
last_of first (second ∷ rest) = last_of second rest

abbrev head_sequence_blocks : Option ChainHead → LegacyHeldPredecessor → Bool
head_sequence_blocks none oldest = false
head_sequence_blocks (some head) oldest = leb oldest.device_sequence head.last_sequence

abbrev head_link : Option ChainHead → String
head_link none = ""
head_link (some head) = head.last_chain_id

-- The checks on the collected chain, oldest first, before anything is written.
unfoldable pub check_held_chain :
    Tables
    → String
    → String
    → String
    → ℕ
    → LegacyHeldPredecessor
    → List LegacyHeldPredecessor
    → Result StorageError (Unit {0})
unfolding check_links chain_head
check_held_chain t channel_id sender_device arriving sequence oldest rest = do
  reject_if
      (oldest.device_sequence == 1 && elim oldest.previous_chain_id [ none ↦ false | _ ↦ true ])
      (inbound_forked sender_device oldest.device_sequence (or_default oldest.previous_chain_id)
        oldest.message_id)
  reject_if (head_sequence_blocks (chain_head t channel_id sender_device) oldest) (
      inbound_forked sender_device oldest.device_sequence
        (head_link (chain_head t channel_id sender_device)) oldest.message_id)
  check_links sender_device oldest rest
  reject_if (leb sequence (last_of oldest rest).device_sequence)
      (inbound_forked sender_device sequence (last_of oldest rest).chain_id arriving)

abbrev pub adopted_link :
    String → String → String → Option String → LegacyHeldPredecessor → RecipientLink
adopted_link channel_id sender_device recipient_device previous p = record {
  message_id = p.message_id;
  channel_id = channel_id;
  sender_device = sender_device;
  recipient_device = recipient_device;
  device_sequence = p.device_sequence;
  chain_id = p.chain_id;
  previous_chain_id = previous;
  ciphertext_sha256 = p.ciphertext_sha256;
  is_accepted = true;
  is_receipt = p.is_receipt;
  is_expired = p.is_expired;
}

-- `COALESCE(arrival_sequence, n)`.
abbrev or_arrival : Option ℕ → ℕ → ℕ
or_arrival none n = n
or_arrival (some old) n = old

abbrev pub settle_row : String → ℕ → String → InboxRow → InboxRow
settle_row id n now row =
    if str_eq row.message_id id
    then record row {
      arrival_sequence = some (or_arrival row.arrival_sequence n);
      received_at = now;
    }
    else row

-- The UPDATE of `inbox` and the two DELETEs for one adopted message.
unfoldable pub settle_adopted : String → String → LegacyHeldPredecessor → Tables → Tables
unfolding max_arrival delete_hold
settle_adopted channel_id now p t =
    let arrived = if p.is_receipt then t else record t {
      inbox = map (settle_row p.message_id (suc (max_arrival channel_id t.inbox)) now) t.inbox;
    } in
    delete_hold p.message_id (record arrived {
      inbound_receipt_link =
          filter (λ row. not (str_eq row.message_id p.message_id)) t.inbound_receipt_link;
    })

unfoldable pub adopt_each :
    String
    → String
    → String
    → String
    → Option String
    → List LegacyHeldPredecessor
    → Tables
    → Result StorageError Tables
unfolding settle_adopted
adopt_each channel_id sender_device recipient_device now previous [] t = ok t
adopt_each channel_id sender_device recipient_device now previous (p ∷ rest) t =
    insert_unique recipient_clash
      (adopted_link channel_id sender_device recipient_device previous p) t.inbound_recipient_link
    >>= λ rows.
        adopt_each channel_id sender_device recipient_device now (some p.chain_id) rest
          (settle_adopted channel_id now p (record t { inbound_recipient_link = rows }))

-- What `adopt_legacy_held_predecessor` does once the chain is collected and reversed.
unfoldable pub adopt_chain :
    String
    → String
    → String
    → String
    → ℕ
    → String
    → List LegacyHeldPredecessor
    → Tables
    → Result StorageError (Bool × Tables)
unfolding check_held_chain adopt_each
adopt_chain channel_id sender_device recipient_device arriving sequence now [] t = ok (false, t)
adopt_chain channel_id sender_device recipient_device arriving sequence now (oldest ∷ rest) t = do
  check_held_chain t channel_id sender_device arriving sequence oldest rest
  adopted ← adopt_each channel_id sender_device recipient_device now none (oldest ∷ rest) t
  ok (true, adopted)

-- Each step of the collection visits another held row, so their number is fuel enough.
unfoldable pub adopt_legacy_held_predecessor :
    String → String → String → String → ℕ → String → Tables → Run StorageError (Bool × Tables)
unfolding collect_held adopt_chain
adopt_legacy_held_predecessor channel_id sender_device recipient_device arriving sequence now t =
    and_then
      (collect_held (suc (length t.inbound_hold)) t channel_id sender_device arriving sequence []
        arriving [])
      λ chain.
        some (adopt_chain channel_id sender_device recipient_device arriving sequence now chain t)
