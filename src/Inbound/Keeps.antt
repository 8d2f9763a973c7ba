-- ===== src/Inbound/Keeps.antt =====
-- crates/hrc-storage/src/ordering.rs: no step of `record_inbound` changes an arrival number that
-- was given.
use mathlib.Core.Path.{subst}
use herdr_remote_channel.Prelude.{
  ℕ, zero, suc, sym, inl, inr, String, List, leb, Bool-cases, Option-cases,
}
use herdr_remote_channel.Inbound.{InboundMessage, InboxRow, RecipientLink, Tables}
use herdr_remote_channel.Inbound.Run.{ok_any, OnOk, OnReturn, ok_bind, return_try}
use herdr_remote_channel.Inbound.Accept.{
  delete_hold, insert_accepted, store_held_inbox, store_inbound_context,
}
use herdr_remote_channel.Inbound.Arrivals.{store_inbound_context-inbox}
use herdr_remote_channel.Inbound.Release.{
  HeldMessage, Walk, take_held, take_held_receipt, own_chain_message, past_receipt, past_message,
  release,
}
use herdr_remote_channel.Inbound.Adopt.{LegacyHeldPredecessor, settle_adopted}
use herdr_remote_channel.Inbound.Recipient.{
  mark_accepted, scoped_message, release_message, release_link, release_recipient,
  held_message_by_id, next_recipient_held,
}

-- A property of the rows of `inbox` that the writes to it preserve: accepting a message, storing a
-- held one, and adopting one.
pub record PreservedByWrites (I : List InboxRow → Type 0) : Type 0 where
  pub accepts :
      (m : InboundMessage) (now : String) (t : Tables)
      → I t.inbox
      → OnOk (λ r. I (r.1.inbox)) (insert_accepted m now t)
  pub stores :
      (m : InboundMessage) (now : String) (t : Tables)
      → I t.inbox
      → OnOk (λ after. I after.inbox) (store_held_inbox m now t)
  pub settles :
      (channel_id now : String) (p : LegacyHeldPredecessor) (t : Tables)
      → I t.inbox
      → I (settle_adopted channel_id now p t).inbox

-- The same of the result of a step, whose tables come last.
abbrev pub Then : (List InboxRow → Type 0) → {A : Type 0} → A × Tables → Type 0
Then I r = I (r.1.inbox)

module _ (I : List InboxRow → Type 0) (w : PreservedByWrites I) where
  pub context_stays :
      (m : InboundMessage) (t : Tables) → I t.inbox → I (store_inbound_context m t).inbox
  context_stays m t i = subst I (sym (store_inbound_context-inbox m t)) i

  pub release_stays :
      (fuel : ℕ) (m : InboundMessage) (now : String) (walk : Walk) (t : Tables)
      → I t.inbox
      → OnReturn (Then I) (release fuel m now walk t)
  unfolding release delete_hold
  release_stays zero m now walk t i = tt
  release_stays (suc fuel) m now walk t i =
      elim (Option-cases (take_held_receipt t m.channel_id m.sender_device walk.link)) [
        | inr (r, e) ↦
            rw (e, release)
              (release_stays fuel m now (past_receipt walk r) (delete_hold r.message_id t) i)
        | inl no_receipt ↦
            elim (Option-cases (take_held t m.channel_id m.sender_device walk.link)) [
              | inl no_message ↦ rw (no_receipt, no_message, release) i
              | inr (next, e) ↦
                  rw (no_receipt, e, release)
                    (return_try (Then I) (insert_accepted (own_chain_message m next) now t)
                      (λ inserted. release fuel m now (past_message walk next) inserted.1)
                      (w.accepts (own_chain_message m next) now t i)
                      (λ inserted kept.
                        release_stays fuel m now (past_message walk next) inserted.1 kept))
            ]
      ]

  release_message_stays :
      (m : InboundMessage) (recipient_device now : String) (walk : Walk) (row : RecipientLink)
      (next : HeldMessage) (t : Tables)
      → I t.inbox
      → OnOk (Then I) (release_message m recipient_device now walk row next t)
  unfolding release_message mark_accepted
  release_message_stays m d now walk row next t i =
      ok_bind (Then I) (insert_accepted (scoped_message m d walk next _) now t) _
        (w.accepts (scoped_message m d walk next _) now t i) λ inserted kept. kept

  release_link_stays :
      (m : InboundMessage) (recipient_device now : String) (walk : Walk) (row : RecipientLink)
      (t : Tables)
      → I t.inbox
      → OnOk (Then I) (release_link m recipient_device now walk row t)
  unfolding release_link mark_accepted
  release_link_stays m d now walk row t i = elim (Bool-cases row.is_receipt) [
    | inl receipt ↦ rw (receipt, release_link) i
    | inr message ↦
        rw (message, release_link)
          (ok_any (Then I) (held_message_by_id t row.message_id) _
            λ next. release_message_stays m d now walk row next t i)
  ]

  pub release_recipient_stays :
      (fuel : ℕ) (m : InboundMessage) (recipient_device now : String) (walk : Walk) (t : Tables)
      → I t.inbox
      → OnReturn (Then I) (release_recipient fuel m recipient_device now walk t)
  unfolding release_recipient
  release_recipient_stays zero m d now walk t i = tt
  release_recipient_stays (suc fuel) m d now walk t i =
      elim (Option-cases (next_recipient_held t m.channel_id m.sender_device d walk.link)) [
        | inl no_link ↦ rw (no_link, release_recipient) i
        | inr (row, found) ↦ elim (Bool-cases (leb row.device_sequence walk.sequence)) [
          | inl regressed ↦ rw (found, regressed, release_recipient) tt
          | inr ahead ↦
              rw (found, ahead, release_recipient)
                (return_try (Then I) (release_link m d now walk row t)
                  (λ step. release_recipient fuel m d now step.0 step.1)
                  (release_link_stays m d now walk row t i)
                  (λ step kept. release_recipient_stays fuel m d now step.0 step.1 kept))
        ]
      ]
