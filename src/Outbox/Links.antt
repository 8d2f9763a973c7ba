-- ===== src/Outbox/Links.antt =====
-- crates/hrc-storage/src/outbox.rs: the number and the predecessors of a message that is composed.
use mathlib.Core.Path.{subst}
use herdr_remote_channel.Prelude.{
  ℕ, suc, String, true, ◌≡◌, refl, ◌∙◌, ap, Option, none, some, List, [], ◌∷◌, contains, eq_iff,
  arith, if◌then◌else◌,
}
use herdr_remote_channel.Prelude.BTreeMap.{get, insert, get-insert}
use herdr_remote_channel.Errors.{
  ok_same, ProtocolError, StorageError, Result, ok, err, map_err, invalid_ids, map_err_ok,
  bind_succeeds,
}
use herdr_remote_channel.Inbound.Queries.{select}
use herdr_remote_channel.Inbound.Run.{on_ok, OnOk, ok_bind, ok_any}
use herdr_remote_channel.Outbox.{
  RecipientPredecessors, OutgoingReservation, OutgoingBuild, OutboxRow, RecipientRow, Tables,
  ChainLink,
}
use herdr_remote_channel.Outbox.Compose.{
  Composition, reservation_of, reserve, commit, store_composed, compose_in, compose_outgoing,
}
use herdr_remote_channel.Protocol.Envelope.{RecipientDevices}
use herdr_remote_channel.Outbox.Queries.{
  ensure_channel, chain_id_for, increment_device_sequence, latest, precedes, precedes_to, chain_of,
  latest_publishable_chain, predecessor_for, collect_predecessors, recipient_predecessors_for,
}
use herdr_remote_channel.Outbox.Recipients.{recipient_devices}
use herdr_remote_channel.Outbox.Latest.{IsLatest, latest-IsLatest, if_first}
use herdr_remote_channel.Outbox.Numbers.{number_of, increment_device_sequence-number_of}

-- Each recipient gets the link that was looked up for it.
get-collect_predecessors :
    (predecessor : String → Option String) (recipient : String) (ids : List String)
    (filled : RecipientPredecessors)
    → get recipient (collect_predecessors predecessor ids filled)
      ≡ (if contains ids recipient then some (predecessor recipient) else get recipient filled)
unfolding collect_predecessors
get-collect_predecessors predecessor recipient [] filled = refl
get-collect_predecessors predecessor recipient (id ∷ ids) filled = ground (
  arith,
  get-collect_predecessors predecessor recipient ids (insert id (predecessor id) filled),
  get-insert id recipient (predecessor id) filled,
  eq_iff id recipient,
)

-- What a reservation says of the messages before it, in the rows that were there.
pub record Follows (rows : List OutboxRow) (links : List RecipientRow) (last_number : ℕ)
    (c : Composition) (ids : List String) (r : OutgoingReservation) : Type 0 where
  pub numbered : r.device_sequence ≡ suc last_number
  pub before : Option OutboxRow
  pub before_latest : IsLatest (precedes c.channel_id c.device_id r.device_sequence) rows before
  pub linked : r.previous_chain_id ≡ select chain_of before
  pub before_to :
      (recipient : String)
      → contains ids recipient ≡ true
      → (last : Option OutboxRow) × IsLatest
          (precedes_to links c.channel_id c.device_id r.device_sequence recipient)
          rows
          last
        × (get recipient r.recipient_previous_chain_ids ≡ some (select chain_of last))

reservation_of-Follows :
    (t : Tables) (c : Composition) (ids : List String) (sequence last_number : ℕ)
    (chain_id : String)
    → sequence ≡ suc last_number
    → Follows t.outbox t.outbox_recipient last_number c ids
        (reservation_of t c ids sequence chain_id)
unfolding recipient_predecessors_for latest_publishable_chain predecessor_for reservation_of get
reservation_of-Follows t c ids sequence last_number chain_id given = record {
  numbered = given;
  before = latest (precedes c.channel_id c.device_id sequence) t.outbox;
  before_latest = latest-IsLatest (precedes c.channel_id c.device_id sequence) t.outbox;
  linked = refl;
  before_to = λ recipient known.
      let to = precedes_to t.outbox_recipient c.channel_id c.device_id sequence recipient in
      (
        latest to t.outbox,
        latest-IsLatest to t.outbox,
        get-collect_predecessors (predecessor_for t c.channel_id c.device_id sequence) recipient ids
              []
            ∙ if_first known (some (predecessor_for t c.channel_id c.device_id sequence recipient))
                none,
      );
}

commit_ok {ℓ κ} :
    {E : Type ℓ} {A : Type κ} (t : Tables) (r : Result E (A × Tables)) (a : A)
    → (commit t r).0 ≡ ok a
    → (u : Tables) × (r ≡ ok (a, u))
commit_ok t (ok (b, u)) a h = (u, cc)
commit_ok t (err e) a h = cc

module _ {ℓ} {E : Type ℓ} (hash_link : ChainLink → Result ProtocolError String)
    (hash_ids : List String → Result ProtocolError String) (from : StorageError → E) where
  reserve-Follows :
      (c : Composition) (ids : List String) (t : Tables)
      → OnOk
          (λ x.
            Follows t.outbox t.outbox_recipient
              (number_of c.channel_id c.device_id t.device_sequence)
              c
              ids
              x.0)
          (reserve hash_link hash_ids from c ids t)
  unfolding reserve
  reserve-Follows c ids t = ok_any _ (ensure_channel t c.channel_id) _ λ known.
      ok_bind _ (increment_device_sequence c.channel_id c.device_id t) _
        (increment_device_sequence-number_of c.channel_id c.device_id t)
        λ n (given, same_rows, same_links, more, now).
          ok_any _ (chain_id_for hash_link c.channel_id c.device_id (n.0.0) c.message_id) _
            λ chain_id.
              let last_number = number_of c.channel_id c.device_id t.device_sequence in
              let r = reservation_of n.1 c ids (n.0.0) chain_id in
              subst (λ rows. Follows rows t.outbox_recipient last_number c ids r) same_rows
                (subst (λ links. Follows n.1.outbox links last_number c ids r) same_links
                  (reservation_of-Follows n.1 c ids (n.0.0) last_number chain_id given))

  -- A reservation that `compose_outgoing` returns has the number behind the last one that its device
  -- was given in the channel, and names, for the whole chain and for each recipient apart, the
  -- latest row of that device before it that is queued, publishing or published, or nothing where
  -- there is none: never a reservation that may become a gap.
  pub compose_outgoing-Follows :
      (c : Composition) (build : OutgoingReservation → Result E OutgoingBuild) (t : Tables)
      (r : OutgoingReservation)
      → (compose_outgoing hash_link hash_ids from c build t).0 ≡ ok r
      → (recipients : RecipientDevices) × (recipient_devices hash_ids c.recipient_device_ids
          ≡ ok recipients)
        × Follows t.outbox t.outbox_recipient
            (number_of c.channel_id c.device_id t.device_sequence)
            c
            recipients.device_ids
            r
  unfolding compose_in
  compose_outgoing-Follows c build t r h =
      let (u, composed) = commit_ok t (compose_in hash_link hash_ids from c build t) r h in
      let (recipients, chosen, rest) =
        bind_succeeds
          (map_err (λ e. from (invalid_ids e)) (recipient_devices hash_ids c.recipient_device_ids))
          _ (r, u) composed in
      let (held, reserved_by, rest') =
        bind_succeeds (map_err from (reserve hash_link hash_ids from c recipients.device_ids t)) _
          (r, u) rest in
      let (built, built_by, rest'') = bind_succeeds (build (held.0)) _ (r, u) rest' in
      let (stored, stored_by, same) =
        bind_succeeds
          (map_err from (
            store_composed hash_link hash_ids from c recipients.device_ids (held.0) built (held.1)))
          _ (r, u) rest'' in
      (
        recipients,
        map_err_ok (λ e. from (invalid_ids e)) (recipient_devices hash_ids c.recipient_device_ids)
            recipients chosen,
        subst
            (λ x.
              Follows t.outbox t.outbox_recipient
                (number_of c.channel_id c.device_id t.device_sequence) c recipients.device_ids x)
            (ap (λ x. x.0) (ok_same (ok (held.0, stored)) (held.0, stored) (r, u) refl same))
            (on_ok _ (reserve hash_link hash_ids from c recipients.device_ids t) held
              (reserve-Follows c recipients.device_ids t)
              (map_err_ok from (reserve hash_link hash_ids from c recipients.device_ids t) held
                reserved_by)),
      )
