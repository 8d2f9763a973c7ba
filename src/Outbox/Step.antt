-- ===== src/Outbox/Step.antt =====
-- crates/hrc-storage/src/outbox.rs: the operations on the outbox as steps, and what each leaves of the
-- rows that are there.
use herdr_remote_channel.Prelude.{ℕ, String, Option, List}
use herdr_remote_channel.Errors.{ProtocolError, StorageError, Result}
use herdr_remote_channel.Outbox.{
  RecipientPredecessors, OutgoingReservation, OutgoingBuild, PendingOutgoing, Tables, ChainLink,
}
use herdr_remote_channel.Outbox.Compose.{Composition, allocate_outgoing, compose_outgoing}
use herdr_remote_channel.Outbox.Reseal.{reseal_outgoing}
use herdr_remote_channel.Outbox.Updates.{
  queue_outgoing_resealable, record_sent_facts, replace_outgoing_ciphertext, mark_published,
  record_attempt_failure, recover_reservations,
}

module _ {ℓ} {E : Type ℓ} (hash_link : ChainLink → Result ProtocolError String)
    (hash_ids : List String → Result ProtocolError String) (from : StorageError → E) where
  -- One operation, successful or not.
  pub data Step : Tables → Tables → Type ℓ where
    allocates :
        (channel_id device_id message_id : String) (epoch : ℕ) (payload_hash now : String)
        (t : Tables)
        → Step t (
            (allocate_outgoing hash_link hash_ids channel_id device_id message_id epoch payload_hash
              now t).1)
    composes :
        (c : Composition) (build : OutgoingReservation → Result E OutgoingBuild) (t : Tables)
        → Step t ((compose_outgoing hash_link hash_ids from c build t).1)
    reseals :
        (message_id : String) (expected epoch : ℕ) (devices : List String) (now : String)
        (build : PendingOutgoing → RecipientPredecessors → Result E (List ℕ)) (t : Tables)
        → Step t (
            (reseal_outgoing hash_link hash_ids from message_id expected epoch devices now build
              t).1)
    queues :
        (message_id : String) (ciphertext : List ℕ) (material : Option (List ℕ)) (now : String)
        (t : Tables)
        → Step t ((queue_outgoing_resealable message_id ciphertext material now t).1)
    records_facts :
        (message_id thread_id kind : String) (devices : List String) (t : Tables)
        → Step t ((record_sent_facts message_id thread_id kind devices t).1)
    replaces :
        (message_id : String) (expected epoch : ℕ) (ciphertext : List ℕ) (now : String) (t : Tables)
        → Step t ((replace_outgoing_ciphertext message_id expected epoch ciphertext now t).1)
    publishes :
        (message_id now : String) (t : Tables) → Step t ((mark_published message_id now t).1)
    fails :
        (message_id error now : String) (t : Tables)
        → Step t ((record_attempt_failure message_id error now t).1)
    recovers :
        (channel_id now : String) (t : Tables) → Step t ((recover_reservations channel_id now t).1)

  pub data Steps : Tables → Tables → Type ℓ where
    stay : (t : Tables) → Steps t t
    then_step : {t u v : Tables} → Steps t u → Step u v → Steps t v
