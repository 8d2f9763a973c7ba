-- ===== src/Inbound/KeepsReady.antt =====
-- crates/hrc-storage/src/ordering.rs: what adopting held messages preserves, the decision whether a
-- recipient's message is ready does.
use herdr_remote_channel.Prelude.{
  Bool, Bool-cases, List, Option, String, [], inl, inr, length, none, some, str_eq, suc, ℕ, ◌&&◌,
  ◌||◌, ◌∷◌,
}
use herdr_remote_channel.Inbound.{InboundMessage, InboxRow, RecipientHead, Tables}
use herdr_remote_channel.Inbound.Run.{OnOk, OnReturn, bind_any, ok_any, ok_bind, return_bind}
use herdr_remote_channel.Inbound.Queries.{any, insert_unique, recipient_clash}
use herdr_remote_channel.Inbound.Adopt.{
  LegacyHeldPredecessor, adopt_chain, adopt_each, adopt_legacy_held_predecessor, adopted_link,
  check_held_chain, collect_held, settle_adopted,
}
use herdr_remote_channel.Inbound.Recipient.{
  in_scope, legacy_sender_history_exists, recipient_predecessor_accepted,
}
use herdr_remote_channel.Inbound.Record.Scoped.{is_ready, refuse_passed}
use herdr_remote_channel.Inbound.Keeps.{Then}

module _ (I : List InboxRow → Type 0)
    (settles : (channel_id now : String) (p : LegacyHeldPredecessor) (t : Tables)
      → I t.inbox
      → I (settle_adopted channel_id now p t).inbox) where
  adopt_each_stays :
      (channel_id sender_device recipient_device now : String) (previous : Option String)
      (chain : List LegacyHeldPredecessor) (t : Tables)
      → I t.inbox
      → OnOk
          (λ after. I after.inbox)
          (adopt_each channel_id sender_device recipient_device now previous chain t)
  unfolding adopt_each
  adopt_each_stays c s r now previous [] t i = i
  adopt_each_stays c s r now previous (p ∷ chain) t i =
      ok_any (λ after. I after.inbox)
        (insert_unique recipient_clash (adopted_link c s r previous p) t.inbound_recipient_link) _
        λ links.
          adopt_each_stays c s r now (some p.chain_id) chain _
            (settles c now p (record t { inbound_recipient_link = links }) i)

  adopt_chain_stays :
      (channel_id sender_device recipient_device arriving : String) (sequence : ℕ) (now : String)
      (chain : List LegacyHeldPredecessor) (t : Tables)
      → I t.inbox
      → OnOk
          (Then I)
          (adopt_chain channel_id sender_device recipient_device arriving sequence now chain t)
  unfolding adopt_chain
  adopt_chain_stays c s r a n now [] t i = i
  adopt_chain_stays c s r a n now (oldest ∷ rest) t i =
      ok_any (Then I) (check_held_chain t c s a n oldest rest) _ λ _.
        ok_bind (Then I) (adopt_each c s r now none (oldest ∷ rest) t) _
          (adopt_each_stays c s r now none (oldest ∷ rest) t i) λ adopted kept. kept

  pub predecessor_stays :
      (channel_id sender_device recipient_device chain_id : String) (sequence : ℕ) (now : String)
      (t : Tables)
      → I t.inbox
      → OnReturn (Then I) (
          recipient_predecessor_accepted channel_id sender_device recipient_device chain_id sequence
            now t)
  unfolding recipient_predecessor_accepted adopt_legacy_held_predecessor
  predecessor_stays c s r link n now t i =
      elim (Bool-cases (
        any (λ row. in_scope c s r row && str_eq row.chain_id link && row.is_accepted)
          t.inbound_recipient_link
        || any
            (λ row.
              str_eq row.channel_id c
              && str_eq row.sender_device s
              && str_eq row.last_chain_id link)
            t.inbound_chain)) [
              | inl known ↦ rw (known, recipient_predecessor_accepted) i
              | inr unknown ↦
                  rw (unknown, recipient_predecessor_accepted, adopt_legacy_held_predecessor)
                    (bind_any (Then I)
                      (collect_held (suc (length t.inbound_hold)) t c s link n [] link []) _
                      λ chain. adopt_chain_stays c s r link n now chain t i)
            ]

  refuse_passed_stays :
      (m : InboundMessage) (previous : String) (found : Bool × Tables)
      → I (found.1.inbox)
      → OnReturn (Then I) (refuse_passed m previous found)
  unfolding refuse_passed
  refuse_passed_stays m previous found i = elim (Bool-cases (found.0)) [
    | inl known ↦ rw known tt
    | inr unknown ↦ rw unknown i
  ]

  pub is_ready_stays :
      (m : InboundMessage) (recipient_device now : String) (head : Option RecipientHead)
      (previous : Option String) (t : Tables)
      → I t.inbox
      → OnReturn (Then I) (is_ready m recipient_device now head previous t)
  unfolding is_ready
  is_ready_stays m d now (some head) (some previous) t i =
      elim (Bool-cases (str_eq head.last_chain_id previous)) [
        | inl next ↦ rw (next, is_ready) i
        | inr other ↦
            rw (other, is_ready)
              (return_bind (Then I)
                (recipient_predecessor_accepted m.channel_id m.sender_device d previous
                  m.device_sequence now t)
                (refuse_passed m previous)
                (predecessor_stays m.channel_id m.sender_device d previous m.device_sequence now t
                  i)
                λ found kept. refuse_passed_stays m previous found kept)
      ]
  is_ready_stays m d now (some head) none t i = tt
  is_ready_stays m d now none (some previous) t i =
      predecessor_stays m.channel_id m.sender_device d previous m.device_sequence now t i
  is_ready_stays m d now none none t i =
      elim (Bool-cases (legacy_sender_history_exists t m.channel_id m.sender_device)) [
        | inl history ↦ rw (history, is_ready) tt
        | inr fresh ↦ rw (fresh, is_ready) i
      ]
