-- ===== src/Inbound/Order.antt =====
-- crates/hrc-storage/src/ordering.rs: on a device's own chain, a message is accepted directly behind
-- the last accepted link and held otherwise.
use mathlib.Core.Path.{subst}
use herdr_remote_channel.Inbound.Record.{
  record_inbound, run_inbound, record_new, order_by_chain, hold_back, accept_next, conclude,
  store_receipt_link, refuse_taken,
}
use herdr_remote_channel.Errors.{ok}
use herdr_remote_channel.Inbound.Release.{start_walk, release}
use herdr_remote_channel.Inbound.KeepsAll.{store_receipt_link-inbox}
use herdr_remote_channel.Inbound.Committed.{on_result}
use herdr_remote_channel.Prelude.{
  Option-cases, length, eq_iff, ◌∙◌, sym, ap, ℕ, suc, ◌≡◌, ◌≢◌, refl, inl, inr, String, Option,
  none, some, List, str_eq, arith, Bool-cases,
}
use herdr_remote_channel.Inbound.{
  ChainHead, InboundMessage, InboundOutcome, accepted, receipt_accepted, expired_accepted,
  duplicate, held, Tables,
}
use herdr_remote_channel.Inbound.Run.{bind_any, return_any, return_try, OnReturn, OnOk, ok_any}
use herdr_remote_channel.Inbound.Queries.{
  column_eq, chain_taken, sequence_taken, recorded_digest, select, chain_head,
}
use herdr_remote_channel.Inbound.Accept.{
  hold, store_inbound_context, store_held_inbox, insert_hold, max_arrival, insert_accepted,
  or_default, place_accepted,
}
use herdr_remote_channel.Inbound.Record.Scoped.{outcome_of}

-- The last accepted link of the sender's own chain.
unfoldable pub head_of : InboundMessage → Tables → Option String
head_of m t = select (λ head. head.last_chain_id) (chain_head t m.channel_id m.sender_device)

-- What an outcome says of the state before: every acceptance is behind the head, and takes the next
-- arrival number of the channel; a message is held only when its predecessor is another.
unfoldable pub InOrder : InboundMessage → Tables → InboundOutcome → Type 0
InOrder m t (accepted n released) =
    (head_of m t ≡ m.previous_chain_id) × (n ≡ suc (max_arrival m.channel_id t.inbox))
InOrder m t (receipt_accepted released) = head_of m t ≡ m.previous_chain_id
InOrder m t (expired_accepted released) = head_of m t ≡ m.previous_chain_id
InOrder m t (held link) =
    (head_of m t ≢ m.previous_chain_id) × (link ≡ or_default m.previous_chain_id)
InOrder m t duplicate = Unit

outcome_of-InOrder :
    (m : InboundMessage) (t : Tables) (arrival : Option ℕ) (released : List String)
    → head_of m t ≡ m.previous_chain_id
    → ((n : ℕ) → arrival ≡ some n → n ≡ suc (max_arrival m.channel_id t.inbox))
    → InOrder m t (outcome_of m arrival released)
unfolding InOrder outcome_of
outcome_of-InOrder m t none released next h = ground arith
outcome_of-InOrder m t (some n) released next h = ground (arith, h n refl)

insert_accepted_number :
    (m : InboundMessage) (now : String) (t : Tables)
    → OnOk
        (λ r. (n : ℕ) → r.0 ≡ some n → n ≡ suc (max_arrival m.channel_id t.inbox))
        (insert_accepted m now t)
unfolding insert_accepted
insert_accepted_number m now t = elim (Bool-cases (str_eq m.kind "receipt")) [
  | inl receipt ↦ rw receipt (λ n p. cc)
  | inr human ↦ rw human (
      ok_any _ (place_accepted m now (suc (max_arrival m.channel_id t.inbox)) t) _
        (λ placed n p. cc))
]

-- The state that decides is the one before the message's own writes.
module _ (m : InboundMessage) (now : String) (t : Tables) where
  abbrev Ordered : InboundOutcome × Tables → Type 0
  Ordered x = InOrder m t (x.0)

  accept_next-InOrder :
      (linked : Tables)
      → t.inbox ≡ linked.inbox
      → head_of m t ≡ m.previous_chain_id
      → OnReturn Ordered (accept_next m now linked)
  unfolding accept_next
  accept_next-InOrder linked same next =
      return_try Ordered (insert_accepted m now linked) _ (insert_accepted_number m now linked)
        λ inserted number.
          let stored = store_inbound_context m inserted.1 in
          bind_any Ordered (release (suc (length stored.inbound_hold)) m now (start_walk m) stored)
            (conclude m inserted.0)
            λ walked.
              outcome_of-InOrder m t inserted.0 walked.0.released next
                (λ n p. number n p ∙ ap (λ rows. suc (max_arrival m.channel_id rows)) (sym same))

  hold_outcome :
      (linked : Tables)
      → OnOk (λ r. r.0 ≡ held (or_default m.previous_chain_id)) (hold m now linked)
  unfolding hold
  hold_outcome linked =
      ok_any _ (insert_hold m now linked) _
        λ parked. ok_any _ (store_held_inbox m now parked) _ λ stored. refl

  hold_back-InOrder :
      (linked : Tables)
      → head_of m t ≢ m.previous_chain_id
      → OnReturn Ordered (hold_back m now linked)
  unfolding hold_back InOrder
  hold_back-InOrder linked other =
      return_try Ordered (hold m now linked) _ (hold_outcome linked)
        λ parked is_held. subst (InOrder m t) (sym is_held) (other, refl)

  order_by_chain-InOrder :
      (head : Option ChainHead) (previous : Option String) (linked : Tables)
      → t.inbox ≡ linked.inbox
      → head_of m t ≡ select (λ row. row.last_chain_id) head
      → m.previous_chain_id ≡ previous
      → OnReturn Ordered (order_by_chain m now head previous linked)
  unfolding order_by_chain
  order_by_chain-InOrder none none linked same h p = accept_next-InOrder linked same (h ∙ sym p)
  order_by_chain-InOrder none (some previous) linked same h p = hold_back-InOrder linked (λ e. cc)
  order_by_chain-InOrder (some head) (some previous) linked same h p =
      elim (Bool-cases (str_eq head.last_chain_id previous)) [
        | inl next ↦
            rw (next, order_by_chain)
              (accept_next-InOrder linked same
                (h ∙ (ap some ((eq_iff head.last_chain_id previous).0 next) ∙ sym p)))
        | inr other ↦
            rw (other, order_by_chain)
              (hold_back-InOrder linked
                (λ e. ground (arith, eq_iff head.last_chain_id previous, sym h ∙ (e ∙ p))))
      ]
  order_by_chain-InOrder (some head) none linked same h p = tt

  record_new-InOrder : m.recipient_device ≡ none → OnReturn Ordered (record_new m now t)
  unfolding record_new head_of InOrder
  record_new-InOrder own =
      return_any Ordered
        (refuse_taken m (sequence_taken t m.channel_id m.sender_device m.device_sequence)) _
        λ _. return_any Ordered (refuse_taken m (chain_taken t m.channel_id m.chain_id)) _ λ _.
          rw own (
            return_try Ordered (store_receipt_link m t) _ (store_receipt_link-inbox m t)
              λ linked same.
                order_by_chain-InOrder (chain_head t m.channel_id m.sender_device)
                  m.previous_chain_id linked same refl refl)

  run_inbound-InOrder : m.recipient_device ≡ none → OnReturn Ordered (run_inbound m now t)
  unfolding run_inbound InOrder
  run_inbound-InOrder own = elim (Option-cases (recorded_digest t m.message_id m.channel_id)) [
    | inl new ↦ rw (new, run_inbound) (record_new-InOrder own)
    | inr (recorded, known) ↦ elim (Bool-cases (column_eq recorded m.ciphertext_sha256)) [
      | inl repeat ↦ rw (known, repeat, run_inbound) tt
      | inr other ↦ rw (known, other, run_inbound) tt
    ]
  ]

-- A message ordered by its device's own chain is accepted, as an entry, a receipt or an expired
-- message, only when the predecessor that it names is the last link accepted from the device, or
-- when both are absent; an accepted entry gets the next arrival number of the channel; and a
-- message is held, waiting for its predecessor, only when that is another link.
pub record_inbound-InOrder :
    (m : InboundMessage) (now : String) (t after : Tables) (outcome : InboundOutcome)
    → m.recipient_device ≡ none
    → record_inbound m now t ≡ some (ok outcome, after)
    → InOrder m t outcome
unfolding record_inbound
record_inbound-InOrder m now t after outcome own h =
    on_result (λ x. InOrder m t (x.0)) t (run_inbound m now t) outcome after
      (run_inbound-InOrder m now t own) h
