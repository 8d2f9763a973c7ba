-- ===== src/Inbound/Drained.antt =====
-- crates/hrc-storage/src/ordering.rs: what an acceptance does to the held links that follow on it.
use herdr_remote_channel.Prelude.{true, ◌≡◌, String, some, List}
use herdr_remote_channel.Inbound.{
  InboundMessage, InboundOutcome, accepted, receipt_accepted, expired_accepted, duplicate, held,
  ChainHead, Tables,
}
use herdr_remote_channel.Inbound.Queries.{chain_head}
use herdr_remote_channel.Inbound.Settled.{is_held, is_settled, Moves}
use herdr_remote_channel.Inbound.Walked.{Walked}
use herdr_remote_channel.Inbound.ReleaseEnds.{NothingWaits}

-- What an acceptance leaves behind: the message is accepted, and from its link a walk along held
-- messages and receipts, which are accepted by it, leads to the last accepted link of the device, on
-- which nothing held waits. No message leaves the hold otherwise.
pub record Drained (m : InboundMessage) (ids : List String) (before after : Tables) : Type 0 where
  pub head : ChainHead
  pub is_head : chain_head after m.channel_id m.sender_device ≡ some head
  pub entered : is_settled m.message_id after ≡ true
  pub walked : Walked m before after m.chain_id ids head.last_chain_id
  pub quiet : NothingWaits m head.last_chain_id after
  pub moves : Moves before after

-- What every other outcome leaves of the hold.
abbrev pub KeepsHeld : Tables → Tables → Type 0
KeepsHeld before after = (id : String) → is_held id before ≡ true → is_held id after ≡ true

-- What an outcome promises of the tables after it.
unfoldable pub Released : InboundMessage → InboundOutcome → Tables → Tables → Type 0
Released m (accepted n ids) before after = Drained m ids before after
Released m (receipt_accepted ids) before after = Drained m ids before after
Released m (expired_accepted ids) before after = Drained m ids before after
Released m (held link) before after = (is_held m.message_id after ≡ true) × KeepsHeld before after
Released m duplicate before after = KeepsHeld before after

module _ (m : InboundMessage) (now : String) (before : Tables) where
  abbrev Releases : InboundOutcome × Tables → Type 0
  Releases x = Released m (x.0) before (x.1)
