-- ===== src/Inbound/KeepsAll.antt =====
-- crates/hrc-storage/src/ordering.rs: what the writes to `inbox` preserve, `record_inbound` does.
use mathlib.Core.Path.{subst}
use herdr_remote_channel.Inbound.Adopt.{LegacyHeldPredecessor, settle_adopted}
use herdr_remote_channel.Inbound.Arrivals.{insert_hold-inbox}
use herdr_remote_channel.Inbound.KeepsReady.{is_ready_stays}
use herdr_remote_channel.Prelude.{
  sym, suc, ◌≡◌, refl, inl, inr, String, Bool, Option, none, some, List, length, str_eq, arith,
  Bool-cases, Option-cases,
}
use herdr_remote_channel.Inbound.{InboundMessage, InboxRow, ChainHead, Tables}
use herdr_remote_channel.Inbound.Run.{
  ok_bind, OnOk, OnReturn, ok_any, return_try, return_bind, return_any,
}
use herdr_remote_channel.Inbound.Queries.{
  recipient_clash, insert_unique, sequence_taken, chain_taken, recorded_digest, column_eq,
  recipient_head,
}
use herdr_remote_channel.Inbound.Accept.{
  insert_hold, hold, insert_accepted, store_held_inbox, store_inbound_context,
}
use herdr_remote_channel.Inbound.Release.{start_walk, release}
use herdr_remote_channel.Inbound.Recipient.{release_recipient}
use herdr_remote_channel.Inbound.Record.Scoped.{
  place_recipient, conclude_recipient, recipient_link, refuse_competitor, refuse_regression,
  is_ready, insert_recipient_link, accept_for_recipient, hold_for_recipient, advance_recipient,
  record_recipient_inbound,
}
use herdr_remote_channel.Inbound.Record.{
  conclude, refuse_taken, store_receipt_link, advance_chain, accept_next, hold_back, order_by_chain,
  record_new, run_inbound,
}
use herdr_remote_channel.Inbound.Keeps.{
  PreservedByWrites, Then, context_stays, release_stays, release_recipient_stays,
}

-- A message's own first write to `inbox`: before it `J` holds, which adoption preserves, and after
-- it `I` does.
pub record FirstWrite (I J : List InboxRow → Type 0) (m : InboundMessage) (now : String)
    : Type 0 where
  pub accepts : (t : Tables) → J t.inbox → OnOk (Then I) (insert_accepted m now t)
  pub stores : (t : Tables) → J t.inbox → OnOk (λ after. I after.inbox) (store_held_inbox m now t)
  pub settles :
      (channel_id now : String) (p : LegacyHeldPredecessor) (t : Tables)
      → J t.inbox
      → J (settle_adopted channel_id now p t).inbox

pub store_receipt_link-inbox :
    (m : InboundMessage) (t : Tables)
    → OnOk (λ after. t.inbox ≡ after.inbox) (store_receipt_link m t)
unfolding store_receipt_link
store_receipt_link-inbox m t = ground arith

module _ (I J : List InboxRow → Type 0) (w : PreservedByWrites I) (m : InboundMessage)
    (now : String) (f : FirstWrite I J m now) where
  hold-Then : (t : Tables) → J t.inbox → OnOk (Then I) (hold m now t)
  unfolding hold
  hold-Then t i =
      ok_bind (Then I) (insert_hold m now t) _ (insert_hold-inbox m now t) λ parked same.
        ok_bind (Then I) (store_held_inbox m now parked) _ (f.stores parked (subst J (sym same) i))
          λ stored kept. kept

  accept_next-Then : (t : Tables) → J t.inbox → OnReturn (Then I) (accept_next m now t)
  unfolding accept_next advance_chain
  accept_next-Then t i =
      return_try (Then I) (insert_accepted m now t) _ (f.accepts t i) λ inserted kept.
        let stored = store_inbound_context m inserted.1 in
        return_bind (Then I)
          (release (suc (length stored.inbound_hold)) m now (start_walk m) stored)
          (conclude m inserted.0)
          (release_stays I w (suc (length stored.inbound_hold)) m now (start_walk m) stored
            (context_stays I w m inserted.1 kept))
          λ walked done. done

  hold_back-Then : (t : Tables) → J t.inbox → OnReturn (Then I) (hold_back m now t)
  unfolding hold_back
  hold_back-Then t i =
      return_try (Then I) (hold m now t) _ (hold-Then t i)
        λ parked kept. context_stays I w m parked.1 kept

  order_by_chain-Then :
      (head : Option ChainHead) (previous : Option String) (t : Tables)
      → J t.inbox
      → OnReturn (Then I) (order_by_chain m now head previous t)
  unfolding order_by_chain
  order_by_chain-Then none none t i = accept_next-Then t i
  order_by_chain-Then none (some previous) t i = hold_back-Then t i
  order_by_chain-Then (some head) (some previous) t i =
      elim (Bool-cases (str_eq head.last_chain_id previous)) [
        | inl next ↦ rw (next, order_by_chain) (accept_next-Then t i)
        | inr other ↦ rw (other, order_by_chain) (hold_back-Then t i)
      ]
  order_by_chain-Then (some head) none t i = tt

  accept_for_recipient-Then :
      (recipient_device : String) (t : Tables)
      → J t.inbox
      → OnReturn (Then I) (accept_for_recipient m recipient_device now t)
  unfolding accept_for_recipient advance_recipient
  accept_for_recipient-Then d t i =
      return_try (Then I) (insert_accepted m now t) _ (f.accepts t i) λ inserted kept.
        let stored = store_inbound_context m inserted.1 in
        return_bind (Then I)
          (release_recipient (suc (length stored.inbound_recipient_link)) m d now (start_walk m)
            stored)
          (conclude_recipient m d inserted.0)
          (release_recipient_stays I w (suc (length stored.inbound_recipient_link)) m d now
            (start_walk m) stored (context_stays I w m inserted.1 kept))
          λ walked done. done

  hold_for_recipient-Then :
      (t : Tables) → J t.inbox → OnReturn (Then I) (hold_for_recipient m now t)
  unfolding hold_for_recipient
  hold_for_recipient-Then t i =
      return_try (Then I) (store_held_inbox m now t) _ (f.stores t i)
        λ stored kept. context_stays I w m stored kept

  insert_recipient_link_stays :
      (recipient_device : String) (ready : Bool) (t : Tables)
      → OnOk (λ after. t.inbox ≡ after.inbox) (insert_recipient_link m recipient_device ready t)
  unfolding insert_recipient_link
  insert_recipient_link_stays d ready t =
      ok_any (λ after. t.inbox ≡ after.inbox)
        (insert_unique recipient_clash (recipient_link m d ready) t.inbound_recipient_link) _
        λ rows. refl

  place_recipient-Then :
      (recipient_device : String) (found : Bool × Tables)
      → J (found.1.inbox)
      → OnReturn (Then I) (place_recipient m recipient_device now found)
  unfolding place_recipient
  place_recipient-Then d found i =
      return_try (Then I) (insert_recipient_link m d found.0 found.1) _
        (insert_recipient_link_stays d found.0 found.1)
        λ linked same. elim (Bool-cases (found.0)) [
          | inl ready ↦ rw ready (accept_for_recipient-Then d linked (subst J same i))
          | inr early ↦ rw early (hold_for_recipient-Then linked (subst J same i))
        ]

  recipient-Then :
      (recipient_device : String) (t : Tables)
      → J t.inbox
      → OnReturn (Then I) (record_recipient_inbound m recipient_device now t)
  unfolding record_recipient_inbound
  recipient-Then d t i =
      let head = recipient_head t m.channel_id m.sender_device d in
      return_any (Then I) (refuse_competitor m d t) _ λ _.
        return_any (Then I) (refuse_regression m d t) _ λ _.
          return_bind {P = Then J} (Then I) (is_ready m d now head m.recipient_previous_chain_id t)
            (place_recipient m d now)
            (is_ready_stays J f.settles m d now head m.recipient_previous_chain_id t i)
            λ found kept. place_recipient-Then d found kept

  pub record_new-Then : (t : Tables) → J t.inbox → OnReturn (Then I) (record_new m now t)
  unfolding record_new
  record_new-Then t i =
      return_any (Then I)
        (refuse_taken m (sequence_taken t m.channel_id m.sender_device m.device_sequence)) _
        λ _. return_any (Then I) (refuse_taken m (chain_taken t m.channel_id m.chain_id)) _ λ _.
          elim (Option-cases m.recipient_device) [
            | inr (d, scoped) ↦ rw scoped (recipient-Then d t i)
            | inl own ↦ rw own (
                return_try (Then I) (store_receipt_link m t) _ (store_receipt_link-inbox m t)
                  λ linked same. order_by_chain-Then _ m.previous_chain_id linked (subst J same i))
          ]

module _ (I : List InboxRow → Type 0) (w : PreservedByWrites I) where
  pub run_inbound_stays :
      (m : InboundMessage) (now : String) (t : Tables)
      → I t.inbox
      → OnReturn (Then I) (run_inbound m now t)
  unfolding run_inbound
  run_inbound_stays m now t i = elim (Option-cases (recorded_digest t m.message_id m.channel_id)) [
    | inl new ↦
        rw (new, run_inbound)
          (record_new-Then I I w m now
            (record { accepts = w.accepts m now; stores = w.stores m now; settles = w.settles }) t
            i)
    | inr (recorded, known) ↦ elim (Bool-cases (column_eq recorded m.ciphertext_sha256)) [
      | inl repeat ↦ rw (known, repeat, run_inbound) i
      | inr other ↦ rw (known, other, run_inbound) tt
    ]
  ]
