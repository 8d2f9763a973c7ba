-- ===== src/Inbound/Ends.antt =====
-- crates/hrc-storage/src/ordering.rs: the loops of `record_inbound` end.
use herdr_remote_channel.Prelude.{
  ℕ, zero, suc, ◌<◌, ◌≡◌, ◌≢◌, inl, inr, String, Bool, true, not, Option, none, some, List, [], ◌∷◌,
  length, contains, find, str_eq, eq_refl, eq_iff, arith, Bool-cases, Option-cases,
}
use herdr_remote_channel.Errors.{ok}
use herdr_remote_channel.Inbound.{InboundMessage, InboxRow, HoldRow, ReceiptLink, Tables}
use herdr_remote_channel.Inbound.Run.{bind_ends, try_ends}
use herdr_remote_channel.Inbound.Queries.{any}
use herdr_remote_channel.Inbound.Counts.{
  count, find_sound, find-any, count-length, filter_shrinks, count_strict,
}
use herdr_remote_channel.Inbound.Accept.{delete_hold, place_accepted, insert_accepted}
use herdr_remote_channel.Inbound.Adopt.{
  LegacyHeldPredecessor, holds_link, held_at_link, collect_held, adopt_legacy_held_predecessor,
}
use herdr_remote_channel.Inbound.Release.{
  HeldMessage, own_chain_message, past_receipt, past_message, join_held, take_held,
  take_held_receipt, Walk, release,
}

-- Whether a row of `inbound_hold` is the message's.
abbrev is_held : String → HoldRow → Bool
is_held id row = str_eq row.message_id id

-- A message taken back out of the hold table is in it.
join_held-any :
    (inbox : List InboxRow) (channel_id sender_device link : String) (rows : List HoldRow)
    (next : HeldMessage)
    → join_held inbox channel_id sender_device link rows ≡ some next
    → any (is_held next.message_id) rows ≡ true
unfolding join_held
join_held-any inbox c s l [] next h = cc
join_held-any inbox c s l (row ∷ rows) next h =
    ground (arith, join_held-any inbox c s l rows next, eq_refl row.message_id)

-- Accepting a held message deletes its row of the hold table.
insert_accepted_drops :
    (m : InboundMessage) (now : String) (t : Tables) (r : Option ℕ × Tables)
    → insert_accepted m now t ≡ ok r
    → any (is_held m.message_id) t.inbound_hold ≡ true
    → length r.1.inbound_hold < length t.inbound_hold
unfolding insert_accepted place_accepted delete_hold
insert_accepted_drops m now t r h hit =
    ground (arith, filter_shrinks (is_held m.message_id) t.inbound_hold)

-- A receipt taken back is of a held row.
take_held_receipt-any :
    (t : Tables) (channel_id sender_device link : String) (r : ReceiptLink)
    → take_held_receipt t channel_id sender_device link ≡ some r
    → any (is_held r.message_id) t.inbound_hold ≡ true
unfolding take_held_receipt
take_held_receipt-any t c s l r h = ground (arith, find_sound _ t.inbound_receipt_link r h)

take_held-any :
    (t : Tables) (channel_id sender_device link : String) (next : HeldMessage)
    → take_held t channel_id sender_device link ≡ some next
    → any (is_held next.message_id) t.inbound_hold ≡ true
unfolding take_held
take_held-any t c s l next h = join_held-any t.inbox c s l t.inbound_hold next h

-- The release loop ends within as many steps as there are held rows.
pub release_ends :
    (fuel : ℕ) (m : InboundMessage) (now : String) (w : Walk) (t : Tables)
    → length t.inbound_hold < fuel
    → release fuel m now w t ≢ none
unfolding release delete_hold
release_ends zero m now w t h = omega arith
release_ends (suc fuel) m now w t h =
    elim (Option-cases (take_held_receipt t m.channel_id m.sender_device w.link)) [
      | inr (r, e) ↦
          rw (e, release)
            (release_ends fuel m now (past_receipt w r) (delete_hold r.message_id t) (
              omega (
                arith,
                h,
                filter_shrinks (is_held r.message_id) t.inbound_hold
                    (take_held_receipt-any t m.channel_id m.sender_device w.link r e),
              )))
      | inl no_receipt ↦ elim (Option-cases (take_held t m.channel_id m.sender_device w.link)) [
        | inl no_message ↦ rw (no_receipt, no_message, release) (λ p. cc)
        | inr (next, e) ↦
            rw (no_receipt, e, release)
              (try_ends (insert_accepted (own_chain_message m next) now t)
                (λ inserted. release fuel m now (past_message w next) inserted.1)
                (λ inserted done. release_ends fuel m now (past_message w next) inserted.1 (
                  omega (
                    arith,
                    h,
                    insert_accepted_drops (own_chain_message m next) now t inserted done
                        (take_held-any t m.channel_id m.sender_device w.link next e),
                  ))))
      ]
    ]

-- The loop that collects a held chain ends within as many steps as there are held rows that it
-- has not seen.
unseen : List String → HoldRow → Bool
unseen seen row = not (contains seen row.chain_id)

collect_held_ends :
    (fuel : ℕ) (t : Tables) (channel_id sender_device arriving : String) (sequence : ℕ)
    (seen : List String) (current : String) (chain : List LegacyHeldPredecessor)
    → count (unseen seen) t.inbound_hold < fuel
    → collect_held fuel t channel_id sender_device arriving sequence seen current chain ≢ none
unfolding collect_held held_at_link unseen
collect_held_ends zero t c s a n seen current chain h = omega arith
collect_held_ends (suc fuel) t c s a n seen current chain h =
    elim (Bool-cases (contains seen current)) [
      | inl old ↦ rw (old, collect_held) (λ p. cc)
      | inr new ↦ elim (Option-cases (find (holds_link c s current) t.inbound_hold)) [
        | inl gone ↦ rw (new, gone, collect_held, held_at_link) (λ p. cc)
        | inr (row, e) ↦ elim (Option-cases row.previous_chain_id) [
          | inl first ↦ rw (new, e, first, collect_held, held_at_link) (λ p. cc)
          | inr (previous, q) ↦
              rw (new, e, q, collect_held, held_at_link)
                (collect_held_ends fuel t c s a n (current ∷ seen) previous _ (
                  omega (
                    arith,
                    h,
                    count_strict (unseen seen) (unseen (current ∷ seen)) (holds_link c s current)
                        (λ x. ground arith) (λ x at. ground (arith, eq_iff x.chain_id current))
                        (λ x at. ground (arith, eq_iff x.chain_id current, eq_refl current))
                        t.inbound_hold (find-any _ t.inbound_hold row e),
                  )))
        ]
      ]
    ]

pub adopt_ends :
    (channel_id sender_device recipient_device arriving : String) (sequence : ℕ) (now : String)
    (t : Tables)
    → adopt_legacy_held_predecessor channel_id sender_device recipient_device arriving sequence now
        t
      ≢ none
unfolding adopt_legacy_held_predecessor
adopt_ends c s r arriving n now t =
    bind_ends (collect_held (suc (length t.inbound_hold)) t c s arriving n [] arriving []) _
      (collect_held_ends (suc (length t.inbound_hold)) t c s arriving n [] arriving []
        (omega (arith, count-length (unseen []) t.inbound_hold)))
      (λ chain done p. cc)
