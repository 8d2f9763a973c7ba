-- ===== src/Inbound/Queries.antt =====
-- crates/hrc-storage/src/ordering.rs: the queries of inbound ordering, with SQL's comparisons of
-- columns that may be NULL, and the UNIQUE constraints that the migrations declare.
use herdr_remote_channel.Prelude.{
  ℕ, String, Bool, true, false, ◌&&◌, ◌||◌, Option, none, some, List, [], ◌∷◌, ◌++◌, find, str_eq,
  ltb, ◌==◌, if◌then◌else◌,
}
use herdr_remote_channel.Errors.{StorageError, sqlite, Result, ok, err}
use herdr_remote_channel.Inbound.{
  InboxRow, HoldRow, ReceiptLink, RecipientLink, ChainHead, RecipientHead, Tables,
}

-- `column = ?`, false when the column is NULL.
abbrev pub column_eq : Option String → String → Bool
column_eq none s = false
column_eq (some t) s = str_eq t s

-- `column IS ?`.
abbrev pub column_is : Option String → Option String → Bool
column_is none none = true
column_is (some t) (some s) = str_eq t s
column_is _ _ = false

module _ {ℓ} {A : Type ℓ} where
  -- Whether some row satisfies the test.
  abbrev pub any : (A → Bool) → List A → Bool
  any test [] = false
  any test (x ∷ xs) = test x || any test xs

  abbrev pub filter : (A → Bool) → List A → List A
  filter test [] = []
  filter test (x ∷ xs) = if test x then x ∷ filter test xs else filter test xs

  -- An INSERT under UNIQUE constraints.
  abbrev pub insert_unique : (A → A → Bool) → A → List A → Result StorageError (List A)
  insert_unique clash row rows =
      if any (clash row) rows
      then err (sqlite "UNIQUE constraint failed")
      else ok (rows ++ (row ∷ []))

  -- `first UNION ALL second`, of which one row is read.
  abbrev pub or_else : Option A → Option A → Option A
  or_else none second = second
  or_else (some a) second = some a

-- The columns of a row that was found.
abbrev pub select {ℓ κ} : {A : Type ℓ} {B : Type κ} → (A → B) → Option A → Option B
select columns none = none
select columns (some row) = some (columns row)

abbrev pub inbox_clash : InboxRow → InboxRow → Bool
inbox_clash new old =
    str_eq old.message_id new.message_id
    || (str_eq old.channel_id new.channel_id
        && ((ltb 0 new.device_sequence
              && str_eq old.sender_device new.sender_device
              && old.device_sequence == new.device_sequence)
            || elim new.chain_id [ none ↦ false | some link ↦ column_eq old.chain_id link ]))

abbrev pub hold_clash : HoldRow → HoldRow → Bool
hold_clash new old =
    str_eq old.channel_id new.channel_id
    && str_eq old.sender_device new.sender_device
    && old.device_sequence == new.device_sequence

abbrev pub receipt_clash : ReceiptLink → ReceiptLink → Bool
receipt_clash new old =
    str_eq old.message_id new.message_id
    || (str_eq old.channel_id new.channel_id
        && ((str_eq old.sender_device new.sender_device
              && old.device_sequence == new.device_sequence)
            || str_eq old.chain_id new.chain_id))

abbrev coalesce_empty : Option String → String
coalesce_empty none = ""
coalesce_empty (some s) = s

abbrev pub recipient_clash : RecipientLink → RecipientLink → Bool
recipient_clash new old =
    str_eq old.message_id new.message_id
    || (str_eq old.channel_id new.channel_id
        && ((str_eq old.sender_device new.sender_device
              && old.device_sequence == new.device_sequence)
            || str_eq old.chain_id new.chain_id
            || (str_eq old.sender_device new.sender_device
                && str_eq old.recipient_device new.recipient_device
                && str_eq (coalesce_empty old.previous_chain_id)
                    (coalesce_empty new.previous_chain_id))))

-- The digest that `inbox` records for a message of a channel.
unfoldable pub inbox_digest : String → String → List InboxRow → Option (Option String)
inbox_digest message_id channel_id rows =
    select (λ row. row.ciphertext_sha256)
      (find (λ row. str_eq row.message_id message_id && str_eq row.channel_id channel_id) rows)

-- The digest recorded for a message of a channel.
unfoldable pub recorded_digest : Tables → String → String → Option (Option String)
unfolding inbox_digest
recorded_digest t message_id channel_id = or_else (inbox_digest message_id channel_id t.inbox) (
    or_else
      (select (λ row. some row.ciphertext_sha256)
        (find (λ row. str_eq row.message_id message_id && str_eq row.channel_id channel_id)
          t.inbound_receipt_link))
      (select (λ row. some row.ciphertext_sha256)
        (find (λ row. str_eq row.message_id message_id && str_eq row.channel_id channel_id)
          t.inbound_recipient_link)))

-- The message that holds a sequence number of a device.
unfoldable pub sequence_taken : Tables → String → String → ℕ → Option String
sequence_taken t channel_id sender_device device_sequence =
    or_else
      (select (λ row. row.message_id)
        (find
          (λ row.
            str_eq row.channel_id channel_id
            && str_eq row.sender_device sender_device
            && row.device_sequence == device_sequence)
          t.inbox))
      (or_else
        (select (λ row. row.message_id)
          (find
            (λ row.
              str_eq row.channel_id channel_id
              && str_eq row.sender_device sender_device
              && row.device_sequence == device_sequence)
            t.inbound_receipt_link))
        (select (λ row. row.message_id)
          (find
            (λ row.
              str_eq row.channel_id channel_id
              && str_eq row.sender_device sender_device
              && row.device_sequence == device_sequence)
            t.inbound_recipient_link)))

-- The message that holds a chain link.
unfoldable pub chain_taken : Tables → String → String → Option String
chain_taken t channel_id chain_id =
    or_else
      (select (λ row. row.message_id)
        (find (λ row. str_eq row.channel_id channel_id && column_eq row.chain_id chain_id) t.inbox))
      (or_else
        (select (λ row. row.message_id)
          (find (λ row. str_eq row.channel_id channel_id && str_eq row.chain_id chain_id)
            t.inbound_receipt_link))
        (select (λ row. row.message_id)
          (find (λ row. str_eq row.channel_id channel_id && str_eq row.chain_id chain_id)
            t.inbound_recipient_link)))

-- The head of a device's own chain.
unfoldable pub chain_head : Tables → String → String → Option ChainHead
chain_head t channel_id sender_device =
    find (λ row. str_eq row.channel_id channel_id && str_eq row.sender_device sender_device)
      t.inbound_chain

unfoldable pub recipient_head : Tables → String → String → String → Option RecipientHead
recipient_head t channel_id sender_device recipient_device =
    find
      (λ row.
        str_eq row.channel_id channel_id
        && str_eq row.sender_device sender_device
        && str_eq row.recipient_device recipient_device)
      t.inbound_recipient_chain
