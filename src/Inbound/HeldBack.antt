-- ===== src/Inbound/HeldBack.antt =====
-- crates/hrc-storage/src/ordering.rs: what holding a message and storing the row of a receipt leave of
-- the hold.
use herdr_remote_channel.Prelude.{
  String, ◌≡◌, refl, sym, true, str_eq, eq_refl, arith, inl, inr, Bool-cases,
}
use herdr_remote_channel.Inbound.{InboundMessage, held, Tables}
use herdr_remote_channel.Inbound.Run.{OnOk, ok_bind}
use herdr_remote_channel.Inbound.Queries.{any, hold_clash, receipt_clash}
use herdr_remote_channel.Inbound.Record.{store_receipt_link, receipt_link}
use herdr_remote_channel.Inbound.Accept.{insert_hold, store_held_inbox, hold, hold_row, or_default}
use herdr_remote_channel.Inbound.Settled.{is_held, is_settled, Moves, Moves-refl, any-append}

-- What holding a message does: it waits in the hold, with what was held before.
pub record Holds (m : InboundMessage) (before after : Tables) : Type 0 where
  pub waits : is_held m.message_id after ≡ true
  pub others : (id : String) → is_held id before ≡ true → is_held id after ≡ true

hold-Holds :
    (m : InboundMessage) (now : String) (t : Tables) → OnOk (Holds m t) (insert_hold m now t)
unfolding insert_hold is_held
hold-Holds m now t =
    elim (Bool-cases (any (λ row. str_eq row.message_id m.message_id) t.inbound_hold)) [
      | inl already ↦ rw (already, insert_hold) (record { waits = already; others = λ id h. h })
      | inr new ↦
          rw (new, insert_hold)
            (elim (Bool-cases (any (hold_clash (hold_row m now)) t.inbound_hold)) [
              | inl clash ↦ rw clash tt
              | inr free ↦ rw free (record {
                waits = ground (
                  arith,
                  any-append (λ row. str_eq row.message_id m.message_id) t.inbound_hold
                      (hold_row m now),
                  eq_refl m.message_id,
                );
                others = λ id h. ground (
                  arith,
                  any-append (λ row. str_eq row.message_id id) t.inbound_hold (hold_row m now),
                );
              })
            ])
    ]

store_held_inbox-holds :
    (m : InboundMessage) (now : String) (t : Tables)
    → OnOk (λ after. t.inbound_hold ≡ after.inbound_hold) (store_held_inbox m now t)
unfolding store_held_inbox
store_held_inbox-holds m now t = ground arith

-- A message that is held back is held, and so is what was held before.
pub insert_hold-Holds :
    (m : InboundMessage) (now : String) (t : Tables)
    → OnOk (λ r. (r.0 ≡ held (or_default m.previous_chain_id)) × Holds m t (r.1)) (hold m now t)
unfolding hold is_held
insert_hold-Holds m now t = ok_bind _ (insert_hold m now t) _ (hold-Holds m now t) λ parked holds.
    ok_bind _ (store_held_inbox m now parked) _ (store_held_inbox-holds m now parked) λ stored same.
      (
        refl,
        record {
          waits = rw (sym same) holds.waits;
          others = λ id h. rw (sym same) (holds.others id h);
        },
      )

-- Storing the row of a receipt.
pub store_receipt_link-Moves :
    (m : InboundMessage) (t : Tables)
    → OnOk
        (λ linked.
          Moves t linked
          × (t.inbound_hold ≡ linked.inbound_hold)
          × (str_eq m.kind "receipt" ≡ true → is_settled m.message_id linked ≡ true))
        (store_receipt_link m t)
unfolding store_receipt_link is_settled is_held
store_receipt_link-Moves m t = elim (Bool-cases (str_eq m.kind "receipt")) [
  | inr message ↦ rw (message, store_receipt_link) (Moves-refl t, refl, λ e. cc)
  | inl is_receipt ↦
      rw (is_receipt, store_receipt_link)
        (elim (Bool-cases (any (receipt_clash (receipt_link m)) t.inbound_receipt_link)) [
          | inl clash ↦ rw clash tt
          | inr free ↦ rw free (
            record {
              holds = λ test h. h;
              links =
                  λ test h. ground (arith, any-append test t.inbound_receipt_link (receipt_link m));
              stays = λ id h. ground (
                arith,
                any-append (λ link. str_eq link.message_id id) t.inbound_receipt_link
                    (receipt_link m),
              );
              dispositions = λ d id h. h;
              kept = λ id h. ground arith;
            },
            refl,
            λ e. ground (
              arith,
              any-append (λ link. str_eq link.message_id m.message_id) t.inbound_receipt_link
                  (receipt_link m),
              eq_refl m.message_id,
            ),
          )
        ])
]
