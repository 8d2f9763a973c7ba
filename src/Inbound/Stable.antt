-- ===== src/Inbound/Stable.antt =====
-- crates/hrc-storage/src/ordering.rs: the arrival number of a message is permanent.
use herdr_remote_channel.Prelude.{inr, inl, ℕ, suc, ◌≡◌, String, some, List, arith, Bool-cases}
use herdr_remote_channel.Errors.{StorageError, Result}
use herdr_remote_channel.Inbound.{InboundMessage, InboundOutcome, InboxRow, Tables}
use herdr_remote_channel.Inbound.Run.{weaken}
use herdr_remote_channel.Inbound.Accept.{
  delete_hold, max_arrival, insert_accepted, store_held_inbox,
}
use herdr_remote_channel.Inbound.Arrivals.{
  arrival, Keeps, Keeps-refl, Keeps-trans, Keeps-map, insert_accepted-Kept, store_held_inbox-Kept,
}
use herdr_remote_channel.Inbound.Adopt.{LegacyHeldPredecessor, settle_row, settle_adopted}
use herdr_remote_channel.Inbound.Record.{run_inbound, record_inbound}
use herdr_remote_channel.Inbound.Keeps.{PreservedByWrites}
use herdr_remote_channel.Inbound.KeepsAll.{run_inbound_stays}
use herdr_remote_channel.Inbound.Committed.{on_committed}

settle_adopted-Keeps :
    (channel_id now : String) (p : LegacyHeldPredecessor) (t : Tables)
    → Keeps t.inbox (settle_adopted channel_id now p t).inbox
unfolding settle_adopted delete_hold
settle_adopted-Keeps c now p t = elim (Bool-cases p.is_receipt) [
  | inl receipt ↦ rw receipt (Keeps-refl t.inbox)
  | inr human ↦ rw human (
      Keeps-map (settle_row p.message_id (suc (max_arrival c t.inbox)) now) (λ row. ground arith)
        (λ row n at. ground arith) t.inbox)
]

arrival-PreservedByWrites : (base : List InboxRow) → PreservedByWrites (Keeps base)
arrival-PreservedByWrites base = record {
  accepts = λ m now t i.
      weaken _ _ (insert_accepted m now t) (λ x k. Keeps-trans base t.inbox (x.1.inbox) i k)
        (insert_accepted-Kept m now t);
  stores = λ m now t i.
      weaken _ _ (store_held_inbox m now t) (λ x k. Keeps-trans base t.inbox x.inbox i k)
        (store_held_inbox-Kept m now t);
  settles = λ c now p t i. Keeps-trans base t.inbox _ i (settle_adopted-Keeps c now p t);
}

-- Recording an arriving message never changes an arrival number: whatever message arrives, and
-- whether it is accepted, held, repeated or refused, a message that had an arrival number keeps it.
pub record_inbound-arrival :
    (m : InboundMessage) (now : String) (t after : Tables)
    (result : Result StorageError InboundOutcome) (id : String) (n : ℕ)
    → record_inbound m now t ≡ some (result, after)
    → arrival id t.inbox ≡ some n
    → arrival id after.inbox ≡ some n
unfolding record_inbound Keeps
record_inbound-arrival m now t after result id n h before =
    on_committed (λ x. Keeps t.inbox x.inbox) t (run_inbound m now t) result after
      (Keeps-refl t.inbox)
      (run_inbound_stays (Keeps t.inbox) (arrival-PreservedByWrites t.inbox) m now t
        (Keeps-refl t.inbox))
      h id n before
