-- ===== src/Inbound/EndsScoped.antt =====
-- crates/hrc-storage/src/ordering.rs: the release loop of one recipient's messages ends.
use herdr_remote_channel.Prelude.{
  ℕ, zero, suc, ◌<◌, ◌≡◌, ◌≢◌, inl, inr, String, Bool, not, ◌&&◌, ◌||◌, Option, none, some, map,
  str_eq, leb, eq_refl, arith, Bool-cases, Option-cases,
}
use herdr_remote_channel.Errors.{ok, Result-cases, bind_succeeds}
use herdr_remote_channel.Inbound.{InboundMessage, RecipientLink, Tables}
use herdr_remote_channel.Inbound.Run.{try_ends}
use herdr_remote_channel.Inbound.Counts.{count, find_sound, found_hit, count_drops}
use herdr_remote_channel.Inbound.Accept.{delete_hold, place_accepted, insert_accepted}
use herdr_remote_channel.Inbound.Release.{HeldMessage, Walk}
use herdr_remote_channel.Inbound.Recipient.{
  accept_link, mark_accepted, next_recipient_held, release_link, release_recipient, release_message,
  held_message_by_id, scoped_message,
}

abbrev pub is_unreleased : RecipientLink → Bool
is_unreleased row = not row.is_accepted

insert_accepted_keeps :
    (m : InboundMessage) (now : String) (t : Tables) (r : Option ℕ × Tables)
    → insert_accepted m now t ≡ ok r
    → r.1.inbound_recipient_link ≡ t.inbound_recipient_link
unfolding insert_accepted place_accepted delete_hold
insert_accepted_keeps m now t r h = ground arith

release_message_marks :
    (m : InboundMessage) (recipient_device now : String) (w : Walk) (row : RecipientLink)
    (next : HeldMessage) (t : Tables) (step : Walk × Tables)
    → release_message m recipient_device now w row next t ≡ ok step
    → step.1.inbound_recipient_link
      ≡ map
          (accept_link row.message_id (row.is_expired || str_eq next.disposition "expired"))
          t.inbound_recipient_link
unfolding release_message mark_accepted
release_message_marks m d now w row next t step h =
    let expired = row.is_expired || str_eq next.disposition "expired" in
    let placed = insert_accepted (scoped_message m d w next expired) now t in
    ground
      (arith, Result-cases placed, insert_accepted_keeps (scoped_message m d w next expired) now t)

-- A step of the loop writes the table of links only by accepting the row that it found.
release_link_marks :
    (m : InboundMessage) (recipient_device now : String) (w : Walk) (row : RecipientLink)
    (t : Tables) (step : Walk × Tables)
    → release_link m recipient_device now w row t ≡ ok step
    → (expired : Bool) × (step.1.inbound_recipient_link
        ≡ map (accept_link row.message_id expired) t.inbound_recipient_link)
unfolding release_link mark_accepted
release_link_marks m d now w row t step h = elim (Bool-cases row.is_receipt) [
  | inl receipt ↦ (row.is_expired, ground arith)
  | inr message ↦
      let (next, found, released) =
        bind_succeeds (held_message_by_id t row.message_id)
          (λ next. release_message m d now w row next t) step (ground arith) in
      (
        row.is_expired || str_eq next.disposition "expired",
        release_message_marks m d now w row next t step released,
      )
]

-- A step of the loop leaves fewer links unreleased.
release_link_drops :
    (m : InboundMessage) (recipient_device now : String) (w : Walk) (row : RecipientLink)
    (t : Tables) (step : Walk × Tables)
    → next_recipient_held t m.channel_id m.sender_device recipient_device w.link ≡ some row
    → release_link m recipient_device now w row t ≡ ok step
    → count is_unreleased step.1.inbound_recipient_link
      < count is_unreleased t.inbound_recipient_link
unfolding next_recipient_held
release_link_drops m d now w row t step found h =
    let (expired, marked) = release_link_marks m d now w row t step h in
    let hit = λ (x : RecipientLink). not x.is_accepted && str_eq x.message_id row.message_id in
    rw marked (
      count_drops is_unreleased hit (accept_link row.message_id expired)
        (λ x released. ground arith) (λ x at. ground arith) (λ x at. ground arith)
        t.inbound_recipient_link
        (found_hit _ hit t.inbound_recipient_link row found (
          ground (arith, eq_refl row.message_id, find_sound _ t.inbound_recipient_link row found))))

-- The release loop ends within as many steps as there are unreleased links.
pub release_recipient_ends :
    (fuel : ℕ) (m : InboundMessage) (recipient_device now : String) (w : Walk) (t : Tables)
    → count is_unreleased t.inbound_recipient_link < fuel
    → release_recipient fuel m recipient_device now w t ≢ none
unfolding release_recipient
release_recipient_ends zero m d now w t h = omega arith
release_recipient_ends (suc fuel) m d now w t h =
    elim (Option-cases (next_recipient_held t m.channel_id m.sender_device d w.link)) [
      | inl no_link ↦ rw (no_link, release_recipient) (λ p. cc)
      | inr (row, found) ↦ elim (Bool-cases (leb row.device_sequence w.sequence)) [
        | inl regressed ↦ rw (found, regressed, release_recipient) (λ p. cc)
        | inr ahead ↦
            rw (found, ahead, release_recipient)
              (try_ends (release_link m d now w row t)
                (λ step. release_recipient fuel m d now step.0 step.1)
                (λ step done.
                  release_recipient_ends fuel m d now step.0 step.1
                    (omega (arith, h, release_link_drops m d now w row t step found done))))
      ]
    ]
