-- ===== src/Inbound/Digests.antt =====
-- crates/hrc-storage/src/ordering.rs: the digest that `inbox` records for a message, and the writes
-- that record one and keep it.
use herdr_remote_channel.Prelude.{
  ℕ, suc, ◌≡◌, refl, inl, inr, String, false, Option, none, some, List, [], ◌∷◌, ◌++◌, map, str_eq,
  eq_refl, arith, Bool-cases,
}
use herdr_remote_channel.Inbound.{InboundMessage, InboxRow, Tables}
use herdr_remote_channel.Inbound.Run.{OnOk, ok_bind}
use herdr_remote_channel.Inbound.Queries.{any, insert_unique, inbox_clash, inbox_digest}
use herdr_remote_channel.Inbound.Accept.{
  inbox_row, store_held_inbox, delete_hold, is_waiting, give_arrival, max_arrival, place_accepted,
  insert_accepted,
}
use herdr_remote_channel.Inbound.Adopt.{LegacyHeldPredecessor, settle_row, settle_adopted}
use herdr_remote_channel.Inbound.Keeps.{PreservedByWrites}

-- `inbox` records this digest for the message of the channel.
unfoldable pub Records : String → String → String → List InboxRow → Type 0
Records id channel_id digest rows = inbox_digest id channel_id rows ≡ some (some digest)

-- No message of any channel has this identifier.
unfoldable pub Unused : String → List InboxRow → Type 0
Unused id rows = any (λ row. str_eq row.message_id id) rows ≡ false

append-Records :
    (id channel_id digest : String) (rows new : List InboxRow)
    → Records id channel_id digest rows
    → Records id channel_id digest (rows ++ new)
unfolding Records inbox_digest
append-Records id c d [] new h = cc
append-Records id c d (row ∷ rows) new h = ground (arith, append-Records id c d rows new)

map-Records :
    (id channel_id digest : String) (f : InboxRow → InboxRow)
    → ((row : InboxRow) → (f row).message_id ≡ row.message_id)
    → ((row : InboxRow) → (f row).channel_id ≡ row.channel_id)
    → ((row : InboxRow) → (f row).ciphertext_sha256 ≡ row.ciphertext_sha256)
    → (rows : List InboxRow) → Records id channel_id digest rows
    → Records id channel_id digest (map f rows)
unfolding Records inbox_digest
map-Records id c d f p q r [] h = h
map-Records id c d f p q r (row ∷ rows) h =
    rw (p row) (rw (q row) (ground (arith, r row, map-Records id c d f p q r rows)))

map-Unused :
    (id : String) (f : InboxRow → InboxRow)
    → ((row : InboxRow) → (f row).message_id ≡ row.message_id)
    → (rows : List InboxRow) → Unused id rows
    → Unused id (map f rows)
unfolding Unused
map-Unused id f p [] h = refl
map-Unused id f p (row ∷ rows) h = rw (p row) (ground (arith, map-Unused id f p rows))

-- A row added for an unused identifier is the one that is found.
new-Records :
    (id channel_id digest : String) (rows : List InboxRow) (row : InboxRow)
    → Unused id rows
    → row.message_id ≡ id
    → row.channel_id ≡ channel_id
    → row.ciphertext_sha256 ≡ some digest
    → Records id channel_id digest (rows ++ (row ∷ []))
unfolding Records Unused inbox_digest
new-Records id c d [] row h p q r = rw (p) (ground (arith, eq_refl id, eq_refl c))
new-Records id c d (x ∷ rows) row h p q r = ground (arith, new-Records id c d rows row)

Unused-is_waiting :
    (id : String) (rows : List InboxRow) → Unused id rows → any (is_waiting id) rows ≡ false
unfolding Unused
Unused-is_waiting id [] h = refl
Unused-is_waiting id (row ∷ rows) h = ground (arith, Unused-is_waiting id rows)

insert-Records :
    (id channel_id digest : String) (row : InboxRow) (rows : List InboxRow)
    → Records id channel_id digest rows
    → OnOk (Records id channel_id digest) (insert_unique inbox_clash row rows)
insert-Records id c d row rows h = ground (arith, append-Records id c d rows (row ∷ []))

place_accepted-Records :
    (id channel_id digest : String) (m : InboundMessage) (now : String) (n : ℕ) (t : Tables)
    → Records id channel_id digest t.inbox
    → OnOk (λ after. Records id channel_id digest after.inbox) (place_accepted m now n t)
unfolding place_accepted
place_accepted-Records id c d m now n t h =
    elim (Bool-cases (any (is_waiting m.message_id) t.inbox)) [
      | inl waiting ↦ rw waiting (
          map-Records id c d (give_arrival m.message_id n now) (λ row. ground arith)
            (λ row. ground arith) (λ row. ground arith) t.inbox h)
      | inr new ↦ rw new (
          ok_bind _ (insert_unique inbox_clash (inbox_row m now (some n)) t.inbox) _
            (insert-Records id c d (inbox_row m now (some n)) t.inbox h) (λ rows kept. kept))
    ]

accept-Records :
    (id channel_id digest : String) (m : InboundMessage) (now : String) (t : Tables)
    → Records id channel_id digest t.inbox
    → OnOk (λ r. Records id channel_id digest (r.1.inbox)) (insert_accepted m now t)
unfolding insert_accepted delete_hold
accept-Records id c d m now t h = elim (Bool-cases (str_eq m.kind "receipt")) [
  | inl receipt ↦ rw receipt h
  | inr human ↦ rw human (
      ok_bind _ (place_accepted m now (suc (max_arrival m.channel_id t.inbox)) t) _
        (place_accepted-Records id c d m now (suc (max_arrival m.channel_id t.inbox)) t h)
        (λ placed kept. kept))
]

store-Records :
    (id channel_id digest : String) (m : InboundMessage) (now : String) (t : Tables)
    → Records id channel_id digest t.inbox
    → OnOk (λ after. Records id channel_id digest after.inbox) (store_held_inbox m now t)
unfolding store_held_inbox
store-Records id c d m now t h = elim (Bool-cases (str_eq m.kind "receipt")) [
  | inl receipt ↦ rw (receipt, store_held_inbox) h
  | inr human ↦ elim (Bool-cases (any (λ row. str_eq row.message_id m.message_id) t.inbox)) [
    | inl stored ↦ rw (human, stored, store_held_inbox) h
    | inr new ↦
        rw (human, new, store_held_inbox)
          (ok_bind _ (insert_unique inbox_clash (inbox_row m now none) t.inbox) _
            (insert-Records id c d (inbox_row m now none) t.inbox h) (λ rows kept. kept))
  ]
]

pub settle-Records :
    (id channel_id digest : String) (c now : String) (p : LegacyHeldPredecessor) (t : Tables)
    → Records id channel_id digest t.inbox
    → Records id channel_id digest (settle_adopted c now p t).inbox
unfolding settle_adopted delete_hold
settle-Records id c d channel now p t h = elim (Bool-cases p.is_receipt) [
  | inl receipt ↦ rw receipt h
  | inr human ↦ rw human (
      map-Records id c d (settle_row p.message_id (suc (max_arrival channel t.inbox)) now)
        (λ row. ground arith) (λ row. ground arith) (λ row. ground arith) t.inbox h)
]

pub settle-Unused :
    (id : String) (c now : String) (p : LegacyHeldPredecessor) (t : Tables)
    → Unused id t.inbox
    → Unused id (settle_adopted c now p t).inbox
unfolding settle_adopted delete_hold
settle-Unused id channel now p t h = elim (Bool-cases p.is_receipt) [
  | inl receipt ↦ rw receipt h
  | inr human ↦ rw human (
      map-Unused id (settle_row p.message_id (suc (max_arrival channel t.inbox)) now)
        (λ row. ground arith) t.inbox h)
]

-- A recorded digest outlives every later write.
pub Records-PreservedByWrites :
    (id channel_id digest : String) → PreservedByWrites (Records id channel_id digest)
Records-PreservedByWrites id c d = record {
  accepts = accept-Records id c d;
  stores = store-Records id c d;
  settles = settle-Records id c d;
}

-- Accepting or storing a message that is no receipt, under an unused identifier, records it.
module _ (m : InboundMessage) (now : String) (t : Tables) (human : str_eq m.kind "receipt" ≡ false)
    (unused : Unused m.message_id t.inbox) where
  RecordsIt : List InboxRow → Type 0
  RecordsIt = Records m.message_id m.channel_id m.ciphertext_sha256

  added :
      (arrival : Option ℕ)
      → OnOk RecordsIt (insert_unique inbox_clash (inbox_row m now arrival) t.inbox)
  unfolding inbox_row RecordsIt
  added arrival = ground (
    arith,
    new-Records m.message_id m.channel_id m.ciphertext_sha256 t.inbox (inbox_row m now arrival)
        unused refl refl refl,
  )

  placed : (n : ℕ) → OnOk (λ after. RecordsIt after.inbox) (place_accepted m now n t)
  unfolding place_accepted
  placed n = rw (Unused-is_waiting m.message_id t.inbox unused) (
      ok_bind _ (insert_unique inbox_clash (inbox_row m now (some n)) t.inbox) _ (added (some n))
        (λ rows kept. kept))

  pub insert_accepted-Records :
      OnOk
        (λ r. Records m.message_id m.channel_id m.ciphertext_sha256 (r.1.inbox))
        (insert_accepted m now t)
  unfolding insert_accepted delete_hold RecordsIt
  insert_accepted-Records = rw human (
      ok_bind _ (place_accepted m now (suc (max_arrival m.channel_id t.inbox)) t) _
        (placed (suc (max_arrival m.channel_id t.inbox))) (λ after kept. kept))

  pub store_held_inbox-Records :
      OnOk
        (λ after. Records m.message_id m.channel_id m.ciphertext_sha256 after.inbox)
        (store_held_inbox m now t)
  unfolding store_held_inbox RecordsIt Unused
  store_held_inbox-Records =
      rw (human, store_held_inbox)
        (rw unused (
          ok_bind _ (insert_unique inbox_clash (inbox_row m now none) t.inbox) _ (added none)
            (λ rows kept. kept)))
