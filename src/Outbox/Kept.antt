-- ===== src/Outbox/Kept.antt =====
-- crates/hrc-storage/src/outbox.rs: the three transactions that compose keep the rows that are there.
use herdr_remote_channel.Prelude.{ℕ, String, ◌≡◌, refl, arith, List, [], str_eq, not}
use herdr_remote_channel.Errors.{
  ProtocolError, StorageError, invalid_ids, unknown_message, ok_or, Result, map_err,
}
use herdr_remote_channel.Inbound.Queries.{filter}
use herdr_remote_channel.Inbound.Run.{OnOk, ok_bind, ok_any, weaken}
use herdr_remote_channel.Outbox.{
  RecipientPredecessors, OutgoingReservation, OutgoingBuild, PendingOutgoing, Tables, ChainLink,
}
use herdr_remote_channel.Outbox.Queries.{
  update_where, increment_device_sequence, set_last_allocated_chain, replace_recipient_facts,
  expect_row, recipient_predecessors_for, pending_outgoing_in_transaction, outgoing_channel,
  insert_recipients, ensure_channel, chain_id_for,
}
use herdr_remote_channel.Outbox.Recipients.{recipient_devices}
use herdr_remote_channel.Outbox.Compose.{
  reserved_row, insert_outbox, Composition, queued_row, allocate_in, reserve, reservation_of,
  store_composed, compose_in,
}
use herdr_remote_channel.Outbox.Reseal.{
  at_epoch, is_pending_at, is_behind, resealed, made_stale, store_resealed, reseal_in,
}
use herdr_remote_channel.Outbox.Evolves.{Evolves, same_outbox, then_tables}
use herdr_remote_channel.Outbox.Numbers.{
  number_of, update_where-NoLess, increment_device_sequence-number_of,
}
use herdr_remote_channel.Outbox.Rows.{
  map_err-OnOk, insert_outbox-Evolves, pending_at-Unpublished, behind-Unpublished, update-Evolves,
}

-- The number is drawn without a look at the outbox, and is the last of its device from then on.
increment_device_sequence-Evolves :
    (channel_id device_id : String) (t : Tables)
    → OnOk
        (λ n. Evolves t n.1 × (n.0.0 ≡ number_of channel_id device_id n.1.device_sequence))
        (increment_device_sequence channel_id device_id t)
increment_device_sequence-Evolves channel_id device_id t =
    weaken _ _ (increment_device_sequence channel_id device_id t)
      (λ n (given, same_rows, same_links, more, now). (same_outbox t n.1 same_rows more, now))
      (increment_device_sequence-number_of channel_id device_id t)

set_last_allocated_chain-Evolves :
    (channel_id device_id chain_id : String) (t : Tables)
    → Evolves t (set_last_allocated_chain channel_id device_id chain_id t)
unfolding set_last_allocated_chain
set_last_allocated_chain-Evolves channel_id device_id chain_id t = same_outbox t _ refl (
    update_where-NoLess channel_id device_id _ t.device_sequence (λ row. (refl, refl, omega arith)))

replace_recipient_facts-Evolves :
    (message_id : String) (devices : List String) (t : Tables)
    → OnOk (Evolves t) (replace_recipient_facts message_id devices t)
unfolding replace_recipient_facts
replace_recipient_facts-Evolves message_id devices t =
    ok_any _
      (insert_recipients message_id devices
        (filter (λ link. not (str_eq link.message_id message_id)) t.outbox_recipient))
      _ λ links. same_outbox t (record t { outbox_recipient = links }) refl (λ c d. omega arith)

module _ {ℓ} {E : Type ℓ} (hash_link : ChainLink → Result ProtocolError String)
    (hash_ids : List String → Result ProtocolError String) (from : StorageError → E) where
  pub allocate_in-Evolves :
      (channel_id device_id message_id : String) (epoch : ℕ) (payload_hash now : String)
      (t : Tables)
      → OnOk
          (λ x. Evolves t (x.1))
          (allocate_in hash_link hash_ids channel_id device_id message_id epoch payload_hash now t)
  unfolding allocate_in
  allocate_in-Evolves channel_id device_id message_id epoch payload_hash now t =
      ok_any _ (ensure_channel t channel_id) _ λ known.
        ok_bind _ (increment_device_sequence channel_id device_id t) _
          (increment_device_sequence-Evolves channel_id device_id t)
          λ n (kept, last).
            ok_any _ (chain_id_for hash_link channel_id device_id (n.0.0) message_id) _ λ chain_id.
              let row =
                reserved_row channel_id device_id
                  (record {
                    message_id = message_id;
                    device_sequence = n.0.0;
                    chain_id = chain_id;
                    previous_chain_id = n.0.1;
                    roster_epoch = epoch;
                    recipient_previous_chain_ids = [];
                  })
                  payload_hash now in
              let linked = set_last_allocated_chain channel_id device_id chain_id n.1 in
              let moved = set_last_allocated_chain-Evolves channel_id device_id chain_id n.1 in
              ok_bind _ (insert_outbox row linked) _
                (insert_outbox-Evolves row linked
                  (omega (arith, last, moved.numbers channel_id device_id)))
                λ u grown. then_tables t n.1 u kept (then_tables n.1 linked u moved grown)

  reserve-Evolves :
      (c : Composition) (devices : List String) (t : Tables)
      → OnOk
          (λ x.
            Evolves t (x.1)
            × (x.0.device_sequence ≡ number_of c.channel_id c.device_id x.1.device_sequence))
          (reserve hash_link hash_ids from c devices t)
  unfolding reserve reservation_of
  reserve-Evolves c devices t = ok_any _ (ensure_channel t c.channel_id) _ λ known.
      ok_bind _ (increment_device_sequence c.channel_id c.device_id t) _
        (increment_device_sequence-Evolves c.channel_id c.device_id t)
        λ n kept.
          ok_any _ (chain_id_for hash_link c.channel_id c.device_id (n.0.0) c.message_id) _
            λ chain_id. kept

  store_composed-Evolves :
      (c : Composition) (devices : List String) (r : OutgoingReservation) (built : OutgoingBuild)
      (t : Tables)
      → r.device_sequence ≡ number_of c.channel_id c.device_id t.device_sequence
      → OnOk (Evolves t) (store_composed hash_link hash_ids from c devices r built t)
  unfolding store_composed
  store_composed-Evolves c devices r built t last =
      ok_bind _ (insert_outbox (queued_row c r built) t) _
        (insert_outbox-Evolves (queued_row c r built) t (omega (arith, last)))
        λ u grown.
          ok_bind _ (replace_recipient_facts c.message_id devices u) _
            (replace_recipient_facts-Evolves c.message_id devices u)
            λ v linked. then_tables t u _ grown (
              then_tables u v _ linked
                (set_last_allocated_chain-Evolves c.channel_id c.device_id r.chain_id v))

  pub compose_in-Evolves :
      (c : Composition) (build : OutgoingReservation → Result E OutgoingBuild) (t : Tables)
      → OnOk (λ x. Evolves t (x.1)) (compose_in hash_link hash_ids from c build t)
  unfolding compose_in
  compose_in-Evolves c build t =
      ok_any _
        (map_err (λ e. from (invalid_ids e)) (recipient_devices hash_ids c.recipient_device_ids)) _
        λ recipients.
          let ids = recipients.device_ids in
          ok_bind _ (map_err from (reserve hash_link hash_ids from c ids t)) _
            (map_err-OnOk _ from (reserve hash_link hash_ids from c ids t)
              (reserve-Evolves c ids t))
            λ held (kept, last). ok_any _ (build (held.0)) _ λ built.
              let stored = store_composed hash_link hash_ids from c ids (held.0) built (held.1) in
              ok_bind _ (map_err from stored) _
                (map_err-OnOk (Evolves held.1) from stored
                  (store_composed-Evolves c ids (held.0) built (held.1) last))
                λ u grown. then_tables t held.1 u kept grown

  store_resealed-Evolves :
      (channel_id : String) (outgoing : PendingOutgoing) (message_id : String) (expected epoch : ℕ)
      (devices : List String) (ciphertext : List ℕ) (now : String) (t : Tables)
      → OnOk (Evolves t) (
          store_resealed hash_link hash_ids from channel_id outgoing message_id expected epoch
            devices ciphertext now t)
  unfolding store_resealed
  store_resealed-Evolves channel_id outgoing message_id expected epoch devices ciphertext now t =
      let chosen = is_pending_at message_id expected in
      let rows = update_where chosen (resealed epoch ciphertext now) t.outbox in
      ok_any _ (expect_row chosen message_id t.outbox) _ λ found.
        ok_bind _ (replace_recipient_facts message_id devices (record t { outbox = rows })) _
          (replace_recipient_facts-Evolves message_id devices (record t { outbox = rows }))
          λ u linked.
            let behind = is_behind channel_id outgoing.device_id outgoing.device_sequence in
            then_tables t u _
              (then_tables t (record t { outbox = rows }) u
                (update-Evolves chosen (resealed epoch ciphertext now) t
                  (pending_at-Unpublished message_id expected) λ x. (refl, refl, refl, refl, refl))
                linked)
              (update-Evolves behind made_stale u
                (behind-Unpublished channel_id outgoing.device_id outgoing.device_sequence)
                λ x. (refl, refl, refl, refl, refl))

  pub reseal_in-Evolves :
      (message_id : String) (expected epoch : ℕ) (devices : List String) (now : String)
      (build : PendingOutgoing → RecipientPredecessors → Result E (List ℕ)) (t : Tables)
      → OnOk
          (λ x. Evolves t (x.1))
          (reseal_in hash_link hash_ids from message_id expected epoch devices now build t)
  unfolding reseal_in
  reseal_in-Evolves message_id expected epoch devices now build t =
      ok_any _ (map_err (λ e. from (invalid_ids e)) (recipient_devices hash_ids devices)) _
        λ recipients.
          let ids = recipients.device_ids in
          ok_any _ (map_err from (pending_outgoing_in_transaction t message_id)) _ λ pending.
            ok_any _ (ok_or (at_epoch expected pending) (from (unknown_message message_id))) _
              λ outgoing. ok_any _ (map_err from (outgoing_channel t message_id)) _ λ channel_id.
                ok_any _
                  (build outgoing (
                    recipient_predecessors_for t channel_id outgoing.device_id
                      outgoing.device_sequence ids))
                  _
                  λ ciphertext.
                    let stored =
                      store_resealed hash_link hash_ids from channel_id outgoing message_id expected
                        epoch ids ciphertext now t in
                    ok_bind _ (map_err from stored) _
                      (map_err-OnOk (Evolves t) from stored (
                        store_resealed-Evolves channel_id outgoing message_id expected epoch ids
                          ciphertext now t))
                      λ u grown. grown
