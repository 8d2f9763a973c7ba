-- ===== src/Inbound/Walked.antt =====
-- crates/hrc-storage/src/ordering.rs: the release after an acceptance walks along held links.
use herdr_remote_channel.Prelude.{
  String, ◌≡◌, Bool, true, false, ◌&&◌, List, [], ◌∷◌, str_eq, arith, inl, inr, Bool-cases,
}
use herdr_remote_channel.Inbound.{InboundMessage, HoldRow, ReceiptLink, Tables}
use herdr_remote_channel.Inbound.Queries.{any, column_eq}
use herdr_remote_channel.Inbound.Release.{waits_on}
use herdr_remote_channel.Inbound.Settled.{is_held, is_settled, disposed, Moves}

-- A held row of the device that waits on the link, with its own identifier and link.
abbrev pub held_at : InboundMessage → String → String → String → HoldRow → Bool
held_at m link id chain row =
    waits_on m.channel_id m.sender_device link row
    && (str_eq row.message_id id && str_eq row.chain_id chain)

-- A receipt of the device that names the link before it, with its own identifier and link.
abbrev pub receipt_at : InboundMessage → String → String → String → ReceiptLink → Bool
receipt_at m link id chain row =
    str_eq row.channel_id m.channel_id
    && (str_eq row.sender_device m.sender_device
        && (column_eq row.previous_chain_id link
            && (str_eq row.message_id id && str_eq row.chain_id chain)))

-- A walk from a link to a link, along messages and receipts that were held before: each names the
-- link before it, is not held any more, and is accepted. The texts are the identifiers of the
-- messages on the way that have not expired.
pub data Walked (m : InboundMessage) (before after : Tables)
    : String → List String → String → Type 0 where
  stops : {link : String} → Walked m before after link [] link
  receipt :
      {link end : String} {ids : List String} (id chain : String)
      → any (receipt_at m link id chain) after.inbound_receipt_link ≡ true
      → is_held id before ≡ true
      → is_held id after ≡ false
      → Walked m before after chain ids end
      → Walked m before after link ids end
  released :
      {link end : String} {ids : List String} (id chain : String)
      → any (held_at m link id chain) before.inbound_hold ≡ true
      → is_held id after ≡ false
      → is_settled id after ≡ true
      → (disposition : String) → str_eq disposition "expired" ≡ false
      → any (disposed disposition id) after.inbox ≡ true
      → Walked m before after chain ids end
      → Walked m before after link (id ∷ ids) end
  expired :
      {link end : String} {ids : List String} (id chain : String)
      → any (held_at m link id chain) before.inbound_hold ≡ true
      → is_held id after ≡ false
      → is_settled id after ≡ true
      → any (disposed "expired" id) after.inbox ≡ true
      → Walked m before after chain ids end
      → Walked m before after link ids end

-- What was held later was held before.
pub Walked-before :
    (m : InboundMessage) (a b after : Tables) {link end : String} {ids : List String}
    → Moves a b
    → Walked m b after link ids end
    → Walked m a after link ids end
unfolding is_held
Walked-before m a b after moves stops = stops
Walked-before m a b after moves (receipt id chain at held gone rest) =
    receipt id chain at (moves.holds (λ row. str_eq row.message_id id) held) gone
      (Walked-before m a b after moves rest)
Walked-before m a b after moves (released id chain at gone settled d timely shown rest) =
    released id chain (moves.holds (held_at m _ id chain) at) gone settled d timely shown
      (Walked-before m a b after moves rest)
Walked-before m a b after moves (expired id chain at gone settled late rest) =
    expired id chain (moves.holds (held_at m _ id chain) at) gone settled late
      (Walked-before m a b after moves rest)

pub stays_out :
    (a b : Tables) (id : String) → Moves a b → is_held id a ≡ false → is_held id b ≡ false
unfolding is_held
stays_out a b id moves gone = elim (Bool-cases (is_held id b)) [
  | inl held ↦ ground (arith, moves.holds (λ row. str_eq row.message_id id) held)
  | inr out ↦ out
]

-- A walk stays one when the tables move on.
pub Walked-after :
    (m : InboundMessage) (before a b : Tables) {link end : String} {ids : List String}
    → Moves a b
    → Walked m before a link ids end
    → Walked m before b link ids end
Walked-after m before a b moves stops = stops
Walked-after m before a b moves (receipt id chain at held gone rest) =
    receipt id chain (moves.links (receipt_at m _ id chain) at) held (stays_out a b id moves gone)
      (Walked-after m before a b moves rest)
Walked-after m before a b moves (released id chain at gone settled d timely shown rest) =
    released id chain at (stays_out a b id moves gone) (moves.stays id settled) d timely
      (moves.dispositions d id shown) (Walked-after m before a b moves rest)
Walked-after m before a b moves (expired id chain at gone settled late rest) =
    expired id chain at (stays_out a b id moves gone) (moves.stays id settled)
      (moves.dispositions "expired" id late) (Walked-after m before a b moves rest)
