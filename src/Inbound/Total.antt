-- ===== src/Inbound/Total.antt =====
-- crates/hrc-storage/src/ordering.rs: `record_inbound` always returns.
use herdr_remote_channel.Inbound.Release.{release, start_walk}
use herdr_remote_channel.Prelude.{
  Bool, ℕ, suc, ◌≢◌, refl, inl, inr, String, Option, none, some, length, str_eq, arith, Bool-cases,
  Option-cases,
}
use herdr_remote_channel.Errors.{StorageError, ok, err}
use herdr_remote_channel.Inbound.{InboundMessage, InboundOutcome, ChainHead, RecipientHead, Tables}
use herdr_remote_channel.Inbound.Run.{Run, bind_ends, try_ends}
use herdr_remote_channel.Inbound.Queries.{recipient_head, sequence_taken, chain_taken}
use herdr_remote_channel.Inbound.Counts.{count-length}
use herdr_remote_channel.Inbound.Accept.{
  store_inbound_context, store_held_inbox, hold, insert_accepted,
}
use herdr_remote_channel.Inbound.Ends.{release_ends, adopt_ends}
use herdr_remote_channel.Inbound.EndsScoped.{is_unreleased, release_recipient_ends}
use herdr_remote_channel.Inbound.Recipient.{release_recipient, recipient_predecessor_accepted}
use herdr_remote_channel.Inbound.Record.Scoped.{
  place_recipient, conclude_recipient, refuse_passed, refuse_competitor, refuse_regression,
  is_ready, insert_recipient_link, accept_for_recipient, hold_for_recipient,
  record_recipient_inbound,
}
use herdr_remote_channel.Inbound.Record.{
  conclude, refuse_taken, store_receipt_link, accept_next, hold_back, order_by_chain, record_new,
  run_inbound, record_inbound, committed,
}

accept_next_ends : (m : InboundMessage) (now : String) (t : Tables) → accept_next m now t ≢ none
unfolding accept_next
accept_next_ends m now t = try_ends (insert_accepted m now t) _ λ inserted placed.
    let stored = store_inbound_context m inserted.1 in
    bind_ends (release (suc (length stored.inbound_hold)) m now (start_walk m) stored)
      (conclude m inserted.0)
      (release_ends (suc (length stored.inbound_hold)) m now (start_walk m) stored (omega arith))
      λ walked done p. cc

hold_back_ends : (m : InboundMessage) (now : String) (t : Tables) → hold_back m now t ≢ none
unfolding hold_back
hold_back_ends m now t = try_ends (hold m now t) _ λ parked done p. cc

order_by_chain_ends :
    (m : InboundMessage) (now : String) (head : Option ChainHead) (previous : Option String)
    (t : Tables)
    → order_by_chain m now head previous t ≢ none
unfolding order_by_chain
order_by_chain_ends m now none none t = accept_next_ends m now t
order_by_chain_ends m now none (some previous) t = hold_back_ends m now t
order_by_chain_ends m now (some head) (some previous) t =
    ground (arith, accept_next_ends m now t, hold_back_ends m now t)
order_by_chain_ends m now (some head) none t = λ p. cc

predecessor_ends :
    (channel_id sender_device recipient_device chain_id : String) (sequence : ℕ) (now : String)
    (t : Tables)
    → recipient_predecessor_accepted channel_id sender_device recipient_device chain_id sequence now
        t
      ≢ none
unfolding recipient_predecessor_accepted
predecessor_ends c s r link n now t = ground (arith, adopt_ends c s r link n now t)

is_ready_ends :
    (m : InboundMessage) (recipient_device now : String) (head : Option RecipientHead)
    (previous : Option String) (t : Tables)
    → is_ready m recipient_device now head previous t ≢ none
unfolding is_ready refuse_passed
is_ready_ends m d now (some head) (some previous) t =
    elim (Bool-cases (str_eq head.last_chain_id previous)) [
      | inl next ↦ rw (next, is_ready) (λ p. cc)
      | inr other ↦
          rw (other, is_ready)
            (bind_ends
              (recipient_predecessor_accepted m.channel_id m.sender_device d previous
                m.device_sequence now t)
              (refuse_passed m previous)
              (predecessor_ends m.channel_id m.sender_device d previous m.device_sequence now t)
              λ found done. ground arith)
    ]
is_ready_ends m d now (some head) none t = λ p. cc
is_ready_ends m d now none (some previous) t =
    predecessor_ends m.channel_id m.sender_device d previous m.device_sequence now t
is_ready_ends m d now none none t = ground arith

accept_for_recipient_ends :
    (m : InboundMessage) (recipient_device now : String) (t : Tables)
    → accept_for_recipient m recipient_device now t ≢ none
unfolding accept_for_recipient
accept_for_recipient_ends m d now t = try_ends (insert_accepted m now t) _ λ inserted placed.
    let stored = store_inbound_context m inserted.1 in
    bind_ends
      (release_recipient (suc (length stored.inbound_recipient_link)) m d now (start_walk m) stored)
      (conclude_recipient m d inserted.0)
      (release_recipient_ends (suc (length stored.inbound_recipient_link)) m d now (start_walk m)
        stored (omega (arith, count-length is_unreleased stored.inbound_recipient_link)))
      λ walked done p. cc

hold_for_recipient_ends :
    (m : InboundMessage) (now : String) (t : Tables) → hold_for_recipient m now t ≢ none
unfolding hold_for_recipient
hold_for_recipient_ends m now t = try_ends (store_held_inbox m now t) _ λ stored done p. cc

place_recipient_ends :
    (m : InboundMessage) (recipient_device now : String) (found : Bool × Tables)
    → place_recipient m recipient_device now found ≢ none
unfolding place_recipient
place_recipient_ends m d now found =
    try_ends (insert_recipient_link m d found.0 found.1) _ λ linked _. elim (Bool-cases (found.0)) [
      | inl ready ↦ rw ready (accept_for_recipient_ends m d now linked)
      | inr early ↦ rw early (hold_for_recipient_ends m now linked)
    ]

recipient_ends :
    (m : InboundMessage) (recipient_device now : String) (t : Tables)
    → record_recipient_inbound m recipient_device now t ≢ none
unfolding record_recipient_inbound
recipient_ends m d now t = try_ends (refuse_competitor m d t) _ λ _ _.
    try_ends (refuse_regression m d t) _ λ _ _.
      bind_ends
        (is_ready m d now (recipient_head t m.channel_id m.sender_device d)
          m.recipient_previous_chain_id t)
        (place_recipient m d now)
        (is_ready_ends m d now (recipient_head t m.channel_id m.sender_device d)
          m.recipient_previous_chain_id t)
        λ found _. place_recipient_ends m d now found

record_new_ends : (m : InboundMessage) (now : String) (t : Tables) → record_new m now t ≢ none
unfolding record_new
record_new_ends m now t =
    try_ends (refuse_taken m (sequence_taken t m.channel_id m.sender_device m.device_sequence)) _
      λ _ _. try_ends (refuse_taken m (chain_taken t m.channel_id m.chain_id)) _ λ _ _.
        elim (Option-cases m.recipient_device) [
          | inr (d, scoped) ↦ rw scoped (recipient_ends m d now t)
          | inl own ↦ rw own (
              try_ends (store_receipt_link m t) _
                λ linked _. order_by_chain_ends m now _ m.previous_chain_id linked)
        ]

run_inbound_ends : (m : InboundMessage) (now : String) (t : Tables) → run_inbound m now t ≢ none
unfolding run_inbound
run_inbound_ends m now t = ground (arith, record_new_ends m now t)

committed_ends :
    (t : Tables) (r : Run StorageError (InboundOutcome × Tables)) → r ≢ none → committed t r ≢ none
committed_ends t none h = λ p. h refl
committed_ends t (some (ok (outcome, after))) h = λ p. cc
committed_ends t (some (err e)) h = λ p. cc

-- Recording an arriving message always returns an outcome or an error, in whatever state the
-- tables are: each of the three loops, over the held messages of a device, over the held links of a
-- recipient, and over a held chain that is adopted, ends within the steps that the tables' sizes
-- allow.
pub record_inbound_total :
    (m : InboundMessage) (now : String) (t : Tables) → record_inbound m now t ≢ none
unfolding record_inbound
record_inbound_total m now t = committed_ends t (run_inbound m now t) (run_inbound_ends m now t)
