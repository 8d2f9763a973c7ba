-- ===== src/Inbound/Accepting.antt =====
-- crates/hrc-storage/src/ordering.rs: what accepting a message leaves of the hold and of the inbox.
use herdr_remote_channel.Prelude.{
  ℕ, suc, String, ◌≡◌, true, false, some, List, [], ◌∷◌, map, str_eq, eq_refl, arith, inl, inr,
  Bool-cases,
}
use herdr_remote_channel.Inbound.{InboundMessage, InboxRow, Tables}
use herdr_remote_channel.Inbound.Run.{OnOk, ok_bind}
use herdr_remote_channel.Inbound.Queries.{any, inbox_clash}
use herdr_remote_channel.Inbound.Accept.{
  delete_hold, insert_accepted, place_accepted, give_arrival, is_waiting, inbox_row, max_arrival,
}
use herdr_remote_channel.Inbound.Settled.{
  is_held, is_settled, entered, disposed, Moves, Moves-trans, any-append, delete_hold-is_held,
  delete_hold-Moves,
}

entered-map :
    (id accepted now : String) (n : ℕ) (rows : List InboxRow)
    → any (entered id) rows ≡ true
    → any (entered id) (map (give_arrival accepted n now) rows) ≡ true
entered-map id accepted now n [] h = h
entered-map id accepted now n (row ∷ rows) h = ground (arith, entered-map id accepted now n rows)

disposed-map :
    (disposition id accepted now : String) (n : ℕ) (rows : List InboxRow)
    → any (disposed disposition id) rows ≡ true
    → any (disposed disposition id) (map (give_arrival accepted n now) rows) ≡ true
disposed-map disposition id accepted now n [] h = h
disposed-map disposition id accepted now n (row ∷ rows) h =
    ground (arith, disposed-map disposition id accepted now n rows)

waiting-map :
    (id now : String) (n : ℕ) (rows : List InboxRow)
    → any (is_waiting id) rows ≡ true
    → any (entered id) (map (give_arrival id n now) rows) ≡ true
waiting-map id now n [] h = h
waiting-map id now n (row ∷ rows) h = ground (arith, waiting-map id now n rows)

-- Accepting a message that is no receipt gives it an arrival number, and takes none from another.
place_accepted-Moves :
    (m : InboundMessage) (now : String) (n : ℕ) (t : Tables)
    → OnOk
        (λ after. Moves t after × (is_settled m.message_id after ≡ true))
        (place_accepted m now n t)
unfolding place_accepted is_settled is_held inbox_row
place_accepted-Moves m now n t = elim (Bool-cases (any (is_waiting m.message_id) t.inbox)) [
  | inl waits ↦
      rw (waits, place_accepted)
        (
          record {
            holds = λ test h. h;
            links = λ test h. h;
            stays = λ id h. ground (arith, entered-map id m.message_id now n t.inbox);
            dispositions = λ d id h. disposed-map d id m.message_id now n t.inbox h;
            kept = λ id h. ground arith;
          },
          ground (arith, waiting-map m.message_id now n t.inbox waits),
        )
  | inr new ↦
      rw (new, place_accepted)
        (elim (Bool-cases (any (inbox_clash (inbox_row m now (some n))) t.inbox)) [
          | inl clash ↦ rw clash tt
          | inr free ↦ rw free (
            record {
              holds = λ test h. h;
              links = λ test h. h;
              stays = λ id h.
                  ground (arith, any-append (entered id) t.inbox (inbox_row m now (some n)));
              dispositions = λ d id h.
                  ground (arith, any-append (disposed d id) t.inbox (inbox_row m now (some n)));
              kept = λ id h. ground arith;
            },
            ground (
              arith,
              any-append (entered m.message_id) t.inbox (inbox_row m now (some n)),
              eq_refl m.message_id,
            ),
          )
        ])
]

-- What accepting a message does: the message is accepted and no longer held.
abbrev pub Accepts : InboundMessage → Tables → Tables → Type 0
Accepts m before after =
    Moves before after
    × (is_held m.message_id after ≡ false)
    × (is_settled m.message_id after ≡ true)

delete_hold-settled :
    (id : String) (t : Tables) → is_settled id t ≡ true → is_settled id (delete_hold id t) ≡ true
unfolding is_settled delete_hold
delete_hold-settled id t h = h

pub insert_accepted-Accepts :
    (m : InboundMessage) (now : String) (t : Tables)
    → (str_eq m.kind "receipt" ≡ true → is_settled m.message_id t ≡ true)
    → OnOk (λ inserted. Accepts m t inserted.1) (insert_accepted m now t)
unfolding insert_accepted
insert_accepted-Accepts m now t stored = elim (Bool-cases (str_eq m.kind "receipt")) [
  | inl receipt ↦
      rw (receipt, insert_accepted)
        (
          delete_hold-Moves m.message_id t (stored receipt),
          delete_hold-is_held m.message_id t,
          delete_hold-settled m.message_id t (stored receipt),
        )
  | inr message ↦
      rw (message, insert_accepted)
        (ok_bind (λ inserted. Accepts m t inserted.1)
          (place_accepted m now (suc (max_arrival m.channel_id t.inbox)) t) _
          (place_accepted-Moves m now (suc (max_arrival m.channel_id t.inbox)) t)
          λ placed (moves, settled). (
            Moves-trans t placed (delete_hold m.message_id placed) moves
                (delete_hold-Moves m.message_id placed settled),
            delete_hold-is_held m.message_id placed,
            delete_hold-settled m.message_id placed settled,
          ))
]
