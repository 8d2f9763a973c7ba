-- ===== src/Outbox/Preserved.antt =====
-- crates/hrc-storage/src/outbox.rs: each operation keeps the rows of the outbox that are there.
use herdr_remote_channel.Prelude.{String, refl, List, find}
use herdr_remote_channel.Errors.{
  ProtocolError, StorageError, unknown_message, ok_or, Result, try_then_any,
}
use herdr_remote_channel.Inbound.Queries.{select}
use herdr_remote_channel.Inbound.Run.{ok_any}
use herdr_remote_channel.Outbox.{Tables, ChainLink}
use herdr_remote_channel.Outbox.Queries.{update_where, expect_row}
use herdr_remote_channel.Outbox.Compose.{allocate_in, compose_in}
use herdr_remote_channel.Outbox.Reseal.{is_pending_at, reseal_in}
use herdr_remote_channel.Outbox.Updates.{
  has_id, is_queueable, put_in_queue, queue_outgoing_resealable, with_facts, record_facts_in,
  replaced, replace_outgoing_ciphertext, as_published, mark_published, with_failure,
  record_attempt_failure, is_abandoned, as_gap, recover_reservations,
}
use herdr_remote_channel.Outbox.Step.{
  Step, allocates, composes, reseals, queues, records_facts, replaces, publishes, fails, recovers,
  Steps, stay, then_step,
}
use herdr_remote_channel.Outbox.Evolves.{Evolves, same_tables, then_tables, update_where-Evolves}
use herdr_remote_channel.Outbox.Rows.{
  commit_keeps, pending_at-Unpublished, queueable-Unpublished, abandoned-Unpublished,
  update-Evolves, update_row-Evolves,
}
use herdr_remote_channel.Outbox.Kept.{allocate_in-Evolves, compose_in-Evolves, reseal_in-Evolves}

module _ {ℓ} {E : Type ℓ} (hash_link : ChainLink → Result ProtocolError String)
    (hash_ids : List String → Result ProtocolError String) (from : StorageError → E) where
  Step-Evolves : {t u : Tables} → Step hash_link hash_ids from t u → Evolves t u
  unfolding record_facts_in record_attempt_failure recover_reservations queue_outgoing_resealable
      replace_outgoing_ciphertext mark_published allocate_in compose_in reseal_in
  Step-Evolves (allocates channel_id device_id message_id epoch payload_hash now t) =
      commit_keeps (Evolves t) t
        (allocate_in hash_link hash_ids channel_id device_id message_id epoch payload_hash now t)
        (same_tables t)
        (allocate_in-Evolves hash_link hash_ids from channel_id device_id message_id epoch
          payload_hash now t)
  Step-Evolves (composes c build t) =
      commit_keeps (Evolves t) t (compose_in hash_link hash_ids from c build t) (same_tables t)
        (compose_in-Evolves hash_link hash_ids from c build t)
  Step-Evolves (reseals message_id expected epoch devices now build t) =
      commit_keeps (Evolves t) t
        (reseal_in hash_link hash_ids from message_id expected epoch devices now build t)
        (same_tables t)
        (reseal_in-Evolves hash_link hash_ids from message_id expected epoch devices now build t)
  Step-Evolves (queues message_id ciphertext material now t) =
      let change = put_in_queue ciphertext material now in
      update_row-Evolves (is_queueable message_id) change message_id t (
        update-Evolves (is_queueable message_id) change t (queueable-Unpublished message_id)
          λ x. (refl, refl, refl, refl, refl))
  Step-Evolves (records_facts message_id thread_id kind devices t) =
      commit_keeps (Evolves t) t (record_facts_in message_id thread_id kind devices t)
        (same_tables t)
        (ok_any _ (expect_row (has_id message_id) message_id t.outbox) _ λ found.
          let marked =
            update_where-Evolves (has_id message_id) (with_facts thread_id kind) t λ x passes.
              record {
                same_message = refl;
                same_channel = refl;
                same_device = refl;
                same_sequence = refl;
                same_chain = refl;
                sealed = λ h. (h, refl);
              } in
          record { rows = marked.rows; numbers = marked.numbers })
  Step-Evolves (replaces message_id expected epoch ciphertext now t) =
      let change = replaced epoch ciphertext now in
      update_row-Evolves (is_pending_at message_id expected) change message_id t (
        update-Evolves (is_pending_at message_id expected) change t
          (pending_at-Unpublished message_id expected) λ x. (refl, refl, refl, refl, refl))
  Step-Evolves (publishes message_id now t) =
      update_row-Evolves (has_id message_id) (as_published now) message_id t (
        update_where-Evolves (has_id message_id) (as_published now) t λ x passes. record {
          same_message = refl;
          same_channel = refl;
          same_device = refl;
          same_sequence = refl;
          same_chain = refl;
          sealed = λ h. (refl, refl);
        })
  Step-Evolves (fails message_id error now t) =
      let rows = update_where (has_id message_id) (with_failure error now) t.outbox in
      try_then_any (Evolves t)
        (ok_or (select (λ row. row.attempts) (find (has_id message_id) rows))
          (unknown_message message_id))
        t _ (same_tables t)
        λ attempts found.
          update_where-Evolves (has_id message_id) (with_failure error now) t λ x passes. record {
            same_message = refl;
            same_channel = refl;
            same_device = refl;
            same_sequence = refl;
            same_chain = refl;
            sealed = λ h. (h, refl);
          }
  Step-Evolves (recovers channel_id now t) =
      update-Evolves (is_abandoned channel_id) (as_gap now) t (abandoned-Unpublished channel_id)
        λ x. (refl, refl, refl, refl, refl)

  pub Steps-Evolves : {t u : Tables} → Steps hash_link hash_ids from t u → Evolves t u
  Steps-Evolves (stay t) = same_tables t
  Steps-Evolves (then_step {t} {u} {v} before step) =
      then_tables t u v (Steps-Evolves before) (Step-Evolves step)
