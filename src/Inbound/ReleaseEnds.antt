-- ===== src/Inbound/ReleaseEnds.antt =====
-- crates/hrc-storage/src/ordering.rs: what the release loop has done when it ends.
use mathlib.Core.Path.{subst}
use herdr_remote_channel.Prelude.{
  ℕ, zero, suc, String, ◌≡◌, refl, sym, ap, true, none, some, List, [], ◌∷◌, ◌++◌, str_eq, eq_iff,
  arith, inl, inr, Bool-cases, Option-cases,
}
use herdr_remote_channel.Inbound.{InboundMessage, ReceiptLink, Tables}
use herdr_remote_channel.Inbound.Run.{OnReturn, return_try, weaken_return}
use herdr_remote_channel.Inbound.Queries.{any}
use herdr_remote_channel.Inbound.Accept.{delete_hold, insert_accepted}
use herdr_remote_channel.Inbound.Release.{
  HeldMessage, Walk, release, take_held, take_held_receipt, own_chain_message, past_receipt,
  past_message, waiting_message,
}
use herdr_remote_channel.Inbound.Settled.{
  disposed, Moves, Moves-refl, Moves-trans, delete_hold-is_held, delete_hold-Moves,
}
use herdr_remote_channel.Inbound.Accepting.{Accepts, insert_accepted-Accepts}
use herdr_remote_channel.Inbound.Walked.{
  receipt_at, held_at, Walked, stops, receipt, released, expired, Walked-before, stays_out,
}
use herdr_remote_channel.Inbound.Taken.{
  told_by, join_held-told, find-receipt_at, receipt_settled, kind_settled, told_disposed,
}

append_push :
    (ids more : List String) (id : String) → (ids ++ (id ∷ [])) ++ more ≡ ids ++ (id ∷ more)
append_push [] more id = refl
append_push (x ∷ ids) more id = ap (λ rest. x ∷ rest) (append_push ids more id)

append_nothing : (ids : List String) → ids ++ [] ≡ ids
append_nothing [] = refl
append_nothing (x ∷ ids) = ap (λ rest. x ∷ rest) (append_nothing ids)

-- Nothing held waits on this link of the device.
abbrev pub NothingWaits : InboundMessage → String → Tables → Type 0
NothingWaits m link t =
    (take_held_receipt t m.channel_id m.sender_device link ≡ none)
    × (take_held t m.channel_id m.sender_device link ≡ none)

-- What the release loop has done from a link on, when it ends.
pub record Ends (m : InboundMessage) (w : Walk) (t : Tables) (x : Walk × Tables) : Type 0 where
  pub moves : Moves t (x.1)
  pub ids : List String
  pub lists : x.0.released ≡ w.released ++ ids
  pub walked : Walked m t (x.1) w.link ids (x.0.link)
  pub quiet : NothingWaits m (x.0.link) (x.1)

past_receipt-Ends :
    (m : InboundMessage) (w : Walk) (t : Tables) (r : ReceiptLink) (x : Walk × Tables)
    → take_held_receipt t m.channel_id m.sender_device w.link ≡ some r
    → Ends m (past_receipt w r) (delete_hold r.message_id t) x
    → Ends m w t x
unfolding take_held_receipt delete_hold
past_receipt-Ends m w t r x found e =
    let (at, held) = find-receipt_at m t w.link t.inbound_receipt_link r found in
    let first =
      delete_hold-Moves r.message_id t (receipt_settled m t w.link r.message_id r.chain_id at) in
    record {
      moves = Moves-trans t (delete_hold r.message_id t) (x.1) first e.moves;
      ids = e.ids;
      lists = e.lists;
      walked =
          receipt r.message_id r.chain_id
            (e.moves.links (receipt_at m w.link r.message_id r.chain_id) at) held
            (stays_out (delete_hold r.message_id t) (x.1) r.message_id e.moves
              (delete_hold-is_held r.message_id t))
            (Walked-before m t (delete_hold r.message_id t) (x.1) first e.walked);
      quiet = e.quiet;
    }

past_message-Ends :
    (m : InboundMessage) (w : Walk) (t inserted : Tables) (next : HeldMessage) (x : Walk × Tables)
    → any (held_at m w.link next.message_id next.chain_id) t.inbound_hold ≡ true
    → any (told_by next.message_id next.kind next.disposition) t.inbox ≡ true
    → Accepts (own_chain_message m next) t inserted
    → Ends m (past_message w next) inserted x
    → Ends m w t x
unfolding waiting_message
past_message-Ends m w t inserted next x at told (first, gone, settled) e =
    let moves = Moves-trans t inserted (x.1) first e.moves in
    let out = stays_out inserted (x.1) next.message_id e.moves gone in
    let entered_after = e.moves.stays next.message_id settled in
    let rest = Walked-before m t inserted (x.1) first e.walked in
    let shown =
      moves.dispositions next.disposition next.message_id
        (told_disposed t next.message_id next.kind next.disposition told) in
    elim (Bool-cases (str_eq next.disposition "expired")) [
      | inl late ↦ record {
        moves = moves;
        ids = e.ids;
        lists = ground (arith, e.lists);
        walked =
            expired next.message_id next.chain_id at out entered_after
              (subst (λ d. any (disposed d next.message_id) (x.1).inbox ≡ true)
                ((eq_iff next.disposition "expired").0 late) shown)
              rest;
        quiet = e.quiet;
      }
      | inr timely ↦ record {
        moves = moves;
        ids = next.message_id ∷ e.ids;
        lists = ground (arith, e.lists, append_push w.released e.ids next.message_id);
        walked =
            released next.message_id next.chain_id at out entered_after next.disposition timely
              shown rest;
        quiet = e.quiet;
      }
    ]

-- The release loop walks along what is held, accepts it, and ends where nothing waits.
pub release-Ends :
    (fuel : ℕ) (m : InboundMessage) (now : String) (w : Walk) (t : Tables)
    → OnReturn (Ends m w t) (release fuel m now w t)
unfolding release take_held waiting_message
release-Ends zero m now w t = tt
release-Ends (suc fuel) m now w t =
    elim (Option-cases (take_held_receipt t m.channel_id m.sender_device w.link)) [
      | inr (r, e) ↦
          rw (e, release)
            (weaken_return (Ends m (past_receipt w r) (delete_hold r.message_id t)) (Ends m w t)
              (release fuel m now (past_receipt w r) (delete_hold r.message_id t))
              (λ x. past_receipt-Ends m w t r x e)
              (release-Ends fuel m now (past_receipt w r) (delete_hold r.message_id t)))
      | inl no_receipt ↦ elim (Option-cases (take_held t m.channel_id m.sender_device w.link)) [
        | inl no_message ↦
            rw (no_receipt, no_message, release)
              (record {
                moves = Moves-refl t;
                ids = [];
                lists = sym (append_nothing w.released);
                walked = stops;
                quiet = (no_receipt, no_message);
              })
        | inr (next, e) ↦
            let (at, told) = join_held-told m t.inbox w.link t.inbound_hold next e in
            rw (no_receipt, e, release)
              (return_try {P = λ inserted. Accepts (own_chain_message m next) t inserted.1}
                (Ends m w t) (insert_accepted (own_chain_message m next) now t)
                (λ inserted. release fuel m now (past_message w next) inserted.1)
                (insert_accepted-Accepts (own_chain_message m next) now t
                  (kind_settled t next.message_id next.kind next.disposition told))
                (λ inserted accepts.
                  weaken_return (Ends m (past_message w next) inserted.1) (Ends m w t)
                    (release fuel m now (past_message w next) inserted.1)
                    (λ x. past_message-Ends m w t (inserted.1) next x at told accepts)
                    (release-Ends fuel m now (past_message w next) inserted.1)))
      ]
    ]
