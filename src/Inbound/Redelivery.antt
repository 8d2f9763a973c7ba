-- ===== src/Inbound/Redelivery.antt =====
-- crates/hrc-storage/src/ordering.rs: delivering a message again changes nothing.
use mathlib.Core.Path.{subst}
use herdr_remote_channel.Inbound.Run.{OnReturn}
use herdr_remote_channel.Inbound.Keeps.{Then}
use herdr_remote_channel.Inbound.KeepsAll.{record_new-Then}
use herdr_remote_channel.Inbound.Committed.{same_after, on_result}
use herdr_remote_channel.Prelude.{
  inr, inl, Option-cases, Bool-cases, eq_refl, sym, ◌≢◌, ◌∙◌, ◌≡◌, refl, String, Bool, true, false,
  not, ◌&&◌, Option, none, some, List, [], ◌∷◌, str_eq, arith,
}
use herdr_remote_channel.Errors.{ok}
use herdr_remote_channel.Inbound.{InboundOutcome, InboundMessage, duplicate, InboxRow, Tables}
use herdr_remote_channel.Inbound.Queries.{any, inbox_digest, recorded_digest, column_eq}
use herdr_remote_channel.Inbound.Record.{committed, record_new, run_inbound, record_inbound}
use herdr_remote_channel.Inbound.Digests.{
  store_held_inbox-Records, insert_accepted-Records, Records-PreservedByWrites, settle-Unused,
  Records, Unused,
}

-- Some other channel holds a message with this identifier.
unfoldable pub used_elsewhere : InboundMessage → List InboxRow → Bool
used_elsewhere m rows =
    any (λ row. str_eq row.message_id m.message_id && not (str_eq row.channel_id m.channel_id)) rows

-- An identifier that neither this channel nor another has is unused.
used_elsewhere-Unused :
    (m : InboundMessage) (rows : List InboxRow)
    → inbox_digest m.message_id m.channel_id rows ≡ none
    → used_elsewhere m rows ≡ false
    → Unused m.message_id rows
unfolding inbox_digest used_elsewhere Unused
used_elsewhere-Unused m [] none_here none_there = refl
used_elsewhere-Unused m (row ∷ rows) none_here none_there =
    ground (arith, used_elsewhere-Unused m rows)

-- A digest that `inbox` records is the one that counts.
recorded_digest-Records :
    (m : InboundMessage) (t : Tables)
    → Records m.message_id m.channel_id m.ciphertext_sha256 t.inbox
    → recorded_digest t m.message_id m.channel_id ≡ some (some m.ciphertext_sha256)
unfolding Records recorded_digest
recorded_digest-Records m t h = rw h refl

recorded_none :
    (m : InboundMessage) (t : Tables)
    → recorded_digest t m.message_id m.channel_id ≡ none
    → inbox_digest m.message_id m.channel_id t.inbox ≡ none
unfolding recorded_digest
recorded_none m t h = ground arith

-- A message whose digest is recorded is a duplicate.
repeat_is_duplicate :
    (m : InboundMessage) (later : String) (t : Tables) (recorded : Option String)
    → recorded_digest t m.message_id m.channel_id ≡ some recorded
    → column_eq recorded m.ciphertext_sha256 ≡ true
    → record_inbound m later t ≡ some (ok duplicate, t)
unfolding record_inbound run_inbound
repeat_is_duplicate m later t recorded known same = rw (known, run_inbound) (rw same refl)

-- The three ways of `run_inbound`, by what is recorded for the message.
new_step :
    (m : InboundMessage) (now : String) (t : Tables) (outcome : InboundOutcome) (after : Tables)
    → recorded_digest t m.message_id m.channel_id ≡ none
    → record_inbound m now t ≡ some (ok outcome, after)
    → committed t (record_new m now t) ≡ some (ok outcome, after)
unfolding record_inbound run_inbound
new_step m now t outcome after new h = rw (new, run_inbound) at h

repeat_same :
    (m : InboundMessage) (now : String) (t after : Tables) (outcome : InboundOutcome)
    (recorded : Option String)
    → recorded_digest t m.message_id m.channel_id ≡ some recorded
    → column_eq recorded m.ciphertext_sha256 ≡ true
    → record_inbound m now t ≡ some (ok outcome, after)
    → t ≡ after
repeat_same m now t after outcome recorded known same h =
    same_after (ok duplicate, t) (ok outcome, after)
      (sym (repeat_is_duplicate m now t recorded known same) ∙ h)

substituted :
    (m : InboundMessage) (now : String) (t : Tables) (outcome : InboundOutcome) (after : Tables)
    (recorded : Option String)
    → recorded_digest t m.message_id m.channel_id ≡ some recorded
    → column_eq recorded m.ciphertext_sha256 ≡ false
    → record_inbound m now t ≢ some (ok outcome, after)
unfolding record_inbound run_inbound
substituted m now t outcome after recorded known other =
    rw (known, run_inbound) (rw other (λ p. cc))

-- A message that was not recorded is, once an outcome is returned for it.
record_new-Records :
    (m : InboundMessage) (now : String) (t : Tables)
    → str_eq m.kind "receipt" ≡ false
    → Unused m.message_id t.inbox
    → OnReturn (Then (Records m.message_id m.channel_id m.ciphertext_sha256)) (record_new m now t)
record_new-Records m now t human unused =
    record_new-Then (Records m.message_id m.channel_id m.ciphertext_sha256) (Unused m.message_id)
      (Records-PreservedByWrites m.message_id m.channel_id m.ciphertext_sha256) m now
      (record {
        accepts = λ t i. insert_accepted-Records m now t human i;
        stores = λ t i. store_held_inbox-Records m now t human i;
        settles = settle-Unused m.message_id;
      })
      t unused

-- Delivery is idempotent: when recording a message other than a receipt returned an outcome, be it
-- accepted, held or a duplicate, recording the same message again, at any later time, returns
-- `Duplicate` and changes no table, if no other channel holds a message with its identifier.
pub record_inbound-record_inbound :
    (m : InboundMessage) (now later : String) (t after : Tables) (outcome : InboundOutcome)
    → str_eq m.kind "receipt" ≡ false
    → used_elsewhere m t.inbox ≡ false
    → record_inbound m now t ≡ some (ok outcome, after)
    → record_inbound m later after ≡ some (ok duplicate, after)
record_inbound-record_inbound m now later t after outcome human alone h =
    elim (Option-cases (recorded_digest t m.message_id m.channel_id)) [
      | inl new ↦
          repeat_is_duplicate m later after (some m.ciphertext_sha256)
            (recorded_digest-Records m after (
              on_result (λ x. Records m.message_id m.channel_id m.ciphertext_sha256 (x.1.inbox)) t
                (record_new m now t) outcome after
                (record_new-Records m now t human
                  (used_elsewhere-Unused m t.inbox (recorded_none m t new) alone))
                (new_step m now t outcome after new h)))
            (eq_refl m.ciphertext_sha256)
      | inr (recorded, known) ↦ elim (Bool-cases (column_eq recorded m.ciphertext_sha256)) [
        | inl same ↦
            subst (λ x. record_inbound m later x ≡ some (ok duplicate, x))
              (repeat_same m now t after outcome recorded known same h)
              (repeat_is_duplicate m later t recorded known same)
        | inr other ↦ absurd (substituted m now t outcome after recorded known other h)
      ]
    ]
