-- ===== src/Inbound/Taken.antt =====
-- crates/hrc-storage/src/ordering.rs: what the rows say that a release takes from the hold.
use herdr_remote_channel.Prelude.{
  String, ◌≡◌, Bool, true, ◌&&◌, some, List, [], ◌∷◌, find, str_eq, eq_iff, eq_refl, arith, inl,
  inr, Bool-cases, Option-cases,
}
use herdr_remote_channel.Inbound.{InboundMessage, InboxRow, HoldRow, ReceiptLink, Tables}
use herdr_remote_channel.Inbound.Queries.{any}
use herdr_remote_channel.Inbound.Release.{
  HeldMessage, join_held, receipt_waits, held_message_from_row,
}
use herdr_remote_channel.Inbound.Settled.{is_held, is_settled, disposed, entered}
use herdr_remote_channel.Inbound.Walked.{receipt_at, held_at}

-- The inbox row of a held message.
abbrev pub told_by : String → String → String → InboxRow → Bool
told_by id kind disposition row =
    str_eq row.message_id id && (str_eq row.kind kind && str_eq row.disposition disposition)

find-told_by :
    (id : String) (rows : List InboxRow) (row : InboxRow)
    → find (λ message. str_eq message.message_id id) rows ≡ some row
    → any (told_by id row.kind row.disposition) rows ≡ true
find-told_by id [] row h = cc
find-told_by id (x ∷ rows) row h =
    ground (arith, find-told_by id rows row, eq_refl row.kind, eq_refl row.disposition)

-- A held message that is taken stands in both tables.
pub join_held-told :
    (m : InboundMessage) (inbox : List InboxRow) (link : String) (holds : List HoldRow)
    (next : HeldMessage)
    → join_held inbox m.channel_id m.sender_device link holds ≡ some next
    → (any (held_at m link next.message_id next.chain_id) holds ≡ true)
      × (any (told_by next.message_id next.kind next.disposition) inbox ≡ true)
unfolding join_held held_message_from_row
join_held-told m inbox link [] next h = cc
join_held-told m inbox link (row ∷ rows) next h =
    elim (Option-cases (find (λ message. str_eq message.message_id row.message_id) inbox)) [
      | inl none_told ↦ ground (arith, join_held-told m inbox link rows next)
      | inr (message, told) ↦ ground (
        arith,
        join_held-told m inbox link rows next,
        find-told_by row.message_id inbox message told,
        eq_refl row.message_id,
        eq_refl row.chain_id,
      )
    ]

pub find-receipt_at :
    (m : InboundMessage) (t : Tables) (link : String) (rows : List ReceiptLink) (r : ReceiptLink)
    → find (receipt_waits t m.channel_id m.sender_device link) rows ≡ some r
    → (any (receipt_at m link r.message_id r.chain_id) rows ≡ true)
      × (is_held r.message_id t ≡ true)
unfolding is_held
find-receipt_at m t link [] r h = cc
find-receipt_at m t link (x ∷ rows) r h =
    ground (arith, find-receipt_at m t link rows r, eq_refl x.message_id, eq_refl x.chain_id)

any-weaken :
    {A : Type 0} (P Q : A → Bool) (rows : List A)
    → ((row : A) → P row ≡ true → Q row ≡ true)
    → any P rows ≡ true
    → any Q rows ≡ true
any-weaken P Q [] f h = h
any-weaken P Q (row ∷ rows) f h = elim (Bool-cases (P row)) [
  | inl passes ↦ ground (arith, f row passes)
  | inr fails ↦ ground (arith, any-weaken P Q rows f (ground arith))
]

pub receipt_settled :
    (m : InboundMessage) (t : Tables) (link id chain : String)
    → any (receipt_at m link id chain) t.inbound_receipt_link ≡ true
    → is_settled id t ≡ true
unfolding is_settled
receipt_settled m t link id chain h = ground (
  arith,
  any-weaken (receipt_at m link id chain) (λ row. str_eq row.message_id id) t.inbound_receipt_link
      (λ row at. ground arith) h,
)

pub kind_settled :
    (t : Tables) (id kind disposition : String)
    → any (told_by id kind disposition) t.inbox ≡ true
    → str_eq kind "receipt" ≡ true
    → is_settled id t ≡ true
unfolding is_settled
kind_settled t id kind disposition h receipt_kind = ground (
  arith,
  any-weaken (told_by id kind disposition) (entered id) t.inbox
      (λ row told. ground (arith, eq_iff row.kind kind)) h,
)

pub told_disposed :
    (t : Tables) (id kind disposition : String)
    → any (told_by id kind disposition) t.inbox ≡ true
    → any (disposed disposition id) t.inbox ≡ true
told_disposed t id kind disposition h =
    any-weaken (told_by id kind disposition) (disposed disposition id) t.inbox
      (λ row told. ground arith) h
