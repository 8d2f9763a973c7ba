-- ===== src/Inbound/Arrivals.antt =====
-- crates/hrc-storage/src/ordering.rs: the arrival number of a message, and writes that keep it.
use herdr_remote_channel.Prelude.{
  ℕ, suc, ◌≡◌, inl, inr, String, Option, none, some, List, [], ◌∷◌, ◌++◌, map, str_eq, arith,
  Bool-cases, if◌then◌else◌,
}
use herdr_remote_channel.Inbound.{InboundMessage, InboxRow, Tables}
use herdr_remote_channel.Inbound.Run.{OnOk, ok_bind}
use herdr_remote_channel.Inbound.Queries.{any, insert_unique, inbox_clash}
use herdr_remote_channel.Inbound.Accept.{
  inbox_row, store_held_inbox, insert_hold, store_inbound_context, delete_hold, give_arrival,
  is_waiting, max_arrival, place_accepted, insert_accepted,
}

-- The arrival number of a message, once it has one.
unfoldable pub arrival : String → List InboxRow → Option ℕ
arrival id [] = none
arrival id (row ∷ rows) = if str_eq row.message_id id then row.arrival_sequence else arrival id rows

-- A write after which every message that had an arrival number has the same one.
unfoldable pub Keeps : List InboxRow → List InboxRow → Type 0
Keeps before after = (id : String) (n : ℕ) → arrival id before ≡ some n → arrival id after ≡ some n

pub Keeps-refl : (rows : List InboxRow) → Keeps rows rows
unfolding Keeps
Keeps-refl rows id n h = h

pub Keeps-trans : (a b c : List InboxRow) → Keeps a b → Keeps b c → Keeps a c
unfolding Keeps
Keeps-trans a b c p q id n h = q id n (p id n h)

pub Keeps-append : (rows new : List InboxRow) → Keeps rows (rows ++ new)
unfolding Keeps arrival
Keeps-append [] new id n h = cc
Keeps-append (row ∷ rows) new id n h = ground (arith, Keeps-append rows new id n)

pub Keeps-map :
    (f : InboxRow → InboxRow)
    → ((row : InboxRow) → (f row).message_id ≡ row.message_id)
    → ((row : InboxRow) (n : ℕ) → row.arrival_sequence ≡ some n → (f row).arrival_sequence ≡ some n)
    → (rows : List InboxRow) → Keeps rows (map f rows)
unfolding Keeps arrival
Keeps-map f same kept [] id n h = cc
Keeps-map f same kept (row ∷ rows) id n h =
    rw (same row) (ground (arith, kept row n, Keeps-map f same kept rows id n))

-- A table of messages after which every message that had an arrival number has the same one.
abbrev pub Kept : Tables → Tables → Type 0
Kept before after = Keeps before.inbox after.inbox

Keeps-insert :
    (row : InboxRow) (rows : List InboxRow) → OnOk (Keeps rows) (insert_unique inbox_clash row rows)
Keeps-insert row rows = ground (arith, Keeps-append rows (row ∷ []))

pub place_accepted-Kept :
    (m : InboundMessage) (now : String) (n : ℕ) (t : Tables)
    → OnOk (Kept t) (place_accepted m now n t)
unfolding place_accepted
place_accepted-Kept m now n t = elim (Bool-cases (any (is_waiting m.message_id) t.inbox)) [
  | inl waiting ↦ rw waiting (
      Keeps-map (give_arrival m.message_id n now) (λ row. ground arith) (λ row k at. ground arith)
        t.inbox)
  | inr new ↦ rw new (
      ok_bind _ (insert_unique inbox_clash (inbox_row m now (some n)) t.inbox) _
        (Keeps-insert (inbox_row m now (some n)) t.inbox) (λ rows kept. kept))
]

pub insert_accepted-Kept :
    (m : InboundMessage) (now : String) (t : Tables)
    → OnOk (λ r. Kept t (r.1)) (insert_accepted m now t)
unfolding insert_accepted delete_hold
insert_accepted-Kept m now t = elim (Bool-cases (str_eq m.kind "receipt")) [
  | inl receipt ↦ rw receipt (Keeps-refl t.inbox)
  | inr human ↦ rw human (
      ok_bind _ (place_accepted m now (suc (max_arrival m.channel_id t.inbox)) t) _
        (place_accepted-Kept m now (suc (max_arrival m.channel_id t.inbox)) t)
        (λ placed kept. kept))
]

pub store_held_inbox-Kept :
    (m : InboundMessage) (now : String) (t : Tables) → OnOk (Kept t) (store_held_inbox m now t)
unfolding store_held_inbox
store_held_inbox-Kept m now t = elim (Bool-cases (str_eq m.kind "receipt")) [
  | inl receipt ↦ rw (receipt, store_held_inbox) (Keeps-refl t.inbox)
  | inr human ↦ elim (Bool-cases (any (λ row. str_eq row.message_id m.message_id) t.inbox)) [
    | inl stored ↦ rw (human, stored, store_held_inbox) (Keeps-refl t.inbox)
    | inr new ↦
        rw (human, new, store_held_inbox)
          (ok_bind _ (insert_unique inbox_clash (inbox_row m now none) t.inbox) _
            (Keeps-insert (inbox_row m now none) t.inbox) (λ rows kept. kept))
  ]
]

pub insert_hold-inbox :
    (m : InboundMessage) (now : String) (t : Tables)
    → OnOk (λ parked. parked.inbox ≡ t.inbox) (insert_hold m now t)
unfolding insert_hold
insert_hold-inbox m now t = ground arith

pub store_inbound_context-inbox :
    (m : InboundMessage) (t : Tables) → (store_inbound_context m t).inbox ≡ t.inbox
unfolding store_inbound_context
store_inbound_context-inbox m t = ground arith
