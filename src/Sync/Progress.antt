-- ===== src/Sync/Progress.antt =====
-- Publishing to the in-memory adapter makes progress: a new object is published at the first attempt.
use herdr_remote_channel.Prelude.{
  ℕ, zero, suc, ◌≤◌, String, ◌≡◌, refl, ap, ◌∙◌, true, false, Option, none, some, List, [], ◌∷◌,
  length, eq_refl, arith,
}
use herdr_remote_channel.Prelude.BTreeMap.{get}
use herdr_remote_channel.Errors.{CoreError, Result, ok, try_then}
use herdr_remote_channel.Transport.{
  data_class, is_control, linear_append_only, GroupState, PublishObject, PublishRequest,
  TransportError, validate_publication,
}
use herdr_remote_channel.Transport.Memory.{
  MemoryTransport, memory, head, exists_group, open_group, publish, append, check_request,
  check_objects, check_each, same_revision,
}
use herdr_remote_channel.Storage.{Database, OutboxRecord, mark_published}
use herdr_remote_channel.Sync.{PublishOutcome, PreparedPublication, publish_object}
use herdr_remote_channel.Sync.Publishing.{
  World, Step, opened, prepared, answered, confirmed, attempt, publish_one_prepared, at_least_one,
}

same_revision_refl : (r : Option String) → same_revision r r ≡ true
same_revision_refl none = refl
same_revision_refl (some s) = eq_refl s

module _ (sha256_hex : List ℕ → String) where
  -- The request that publishing one object makes.
  abbrev only : MemoryTransport → PublishObject → PublishRequest
  only t object = record { expected_revision = head t; class = data_class; objects = object ∷ [] }

  check_request-only :
      (t : MemoryTransport) (object : PublishObject)
      → exists_group t ≡ true
      → is_control object.class ≡ false
      → length object.bytes ≤ 26214400
      → get object.name t.objects ≡ none
      → check_request sha256_hex (only t object) t ≡ ok tt
  unfolding check_request validate_publication check_objects check_each
  check_request-only t object present not_control small fresh =
      ground (arith, same_revision_refl (head t))

  publish-only :
      (t : MemoryTransport) (object : PublishObject)
      → exists_group t ≡ true
      → is_control object.class ≡ false
      → length object.bytes ≤ 26214400
      → get object.name t.objects ≡ none
      → let (publication, t') = append sha256_hex data_class (object ∷ []) t in
        publish sha256_hex (only t object) t ≡ (ok publication, t')
  unfolding publish
  publish-only t object present not_control small fresh =
      ap
        (λ checked. try_then checked t λ _.
          let (publication, t') = append sha256_hex data_class (object ∷ []) t in
          (ok publication, t'))
        (check_request-only t object present not_control small fresh)

  open_group-exists :
      (t : MemoryTransport)
      → exists_group t ≡ true
      → open_group sha256_hex t
        ≡ ok (record {
          group_id = t.group_id;
          revision = head t;
          history_model = linear_append_only;
        })
  unfolding open_group
  open_group-exists t present = ground arith

module _ (describe : CoreError → String) (describe_transport : TransportError → String)
    (sha256_hex : List ℕ → String) (channel_id message_id now : String)
    (prepare : MemoryTransport → Database → Result CoreError PreparedPublication × Database) where
  -- The result of publishing at the first attempt.
  abbrev pub at_once : PublishOutcome
  at_once = record { published = message_id ∷ []; conflicts = 0; deferred = [] }

  confirmed-found :
      (w : World MemoryTransport) (row : OutboxRecord)
      → get message_id w.database.outbox ≡ some row
      → confirmed describe describe_transport
          (memory sha256_hex)
          channel_id
          message_id
          now
          prepare
          0
          w
        ≡ (ok at_once, record w { database = (mark_published message_id now w.database).1 })
  unfolding mark_published
  confirmed-found w row found = ground arith

  -- When the record is queued and prepared as a new object that is no control object and not over the
  -- limit, it is published at the first attempt, and then the outbox says so.
  pub publish_one_prepared-memory :
      (max_attempts : ℕ) (w : World MemoryTransport) (object : PublishObject) (row : OutboxRecord)
      → prepare w.transport w.database ≡ (ok (publish_object object), w.database)
      → get message_id w.database.outbox ≡ some row
      → exists_group w.transport ≡ true
      → is_control object.class ≡ false
      → length object.bytes ≤ 26214400
      → get object.name w.transport.objects ≡ none
      → publish_one_prepared describe describe_transport
          (memory sha256_hex)
          channel_id
          message_id
          now
          prepare
          max_attempts
          w
        ≡ (
          ok at_once,
          record {
            transport = (append sha256_hex data_class (object ∷ []) w.transport).1;
            database = (mark_published message_id now w.database).1;
          },
        )
  unfolding publish_one_prepared attempt
  publish_one_prepared-memory max_attempts w object row prepares found present not_control small
        fresh =
      begins (at_least_one max_attempts) (ground arith)
    where
      t : MemoryTransport
      t = w.transport

      group : GroupState
      group = record {
        group_id = t.group_id;
        revision = head t;
        history_model = linear_append_only;
      }

      w' : World MemoryTransport
      w' = record {
        transport = (append sha256_hex data_class (object ∷ []) t).1;
        database = w.database;
      }

      begins :
          (n : ℕ)
          → 1 ≤ n
          → attempt describe describe_transport
              (memory sha256_hex)
              channel_id
              message_id
              now
              prepare
              n
              0
              w
            ≡ (ok at_once, record w' { database = (mark_published message_id now w.database).1 })
      begins zero positive = ground arith
      begins (suc n) positive =
          let again : World MemoryTransport → Step MemoryTransport =
            attempt describe describe_transport (memory sha256_hex) channel_id message_id now
              prepare n 1 in
          ap
            (λ g.
              opened describe describe_transport (memory sha256_hex) channel_id message_id now
                prepare again 0 g w)
            (open_group-exists sha256_hex t present)
          ∙ ap
              (λ x.
                try_then x.0 (record { transport = t; database = x.1 })
                  λ p.
                    prepared describe describe_transport (memory sha256_hex) channel_id message_id
                      now prepare again 0 group p (record { transport = t; database = x.1 }))
              prepares
          ∙ ap
              (λ r.
                answered describe describe_transport (memory sha256_hex) channel_id message_id now
                  prepare again 0 r w.database)
              (publish-only sha256_hex t object present not_control small fresh)
          ∙ confirmed-found w' row found
