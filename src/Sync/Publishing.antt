-- ===== src/Sync/Publishing.antt =====
-- `publish_one_prepared` of crates/hrc-core/src/sync.rs: publishing one queued record, against the
-- tip that is observed.
use herdr_remote_channel.Prelude.{ℕ, zero, suc, String, [], ◌∷◌}
use herdr_remote_channel.Errors.{CoreError, storage, Result, ok, err, map_err, try_then}
use herdr_remote_channel.Transport.{
  data_class, Publication, GroupState, TransportError, conflict, invalid_publication,
  object_hash_mismatch, Transport,
}
use herdr_remote_channel.Storage.{Database, mark_published, record_attempt_failure}
use herdr_remote_channel.Sync.{
  PublishOutcome, PreparedPublication, publish_object, already_published, defer, halt,
}

-- The transport and the database, both `&mut`.
pub record World (T : Type 0) : Type 0 where
  pub transport : T
  pub database : Database

abbrev pub Step : Type 0 → Type 0
Step T = Result CoreError PublishOutcome × World T

-- How the loop treats an error of `publish`.
pub data Failure : Type 0 where
  retry halts defers : Failure

abbrev pub failure : TransportError → Failure
failure (conflict _) = retry
failure (invalid_publication _) = halts
failure (object_hash_mismatch _) = halts
failure _ = defers

abbrev pub exhausted : String
exhausted = "exhausted conflict retries"

-- `max_attempts.max(1)`.
abbrev pub at_least_one : ℕ → ℕ
at_least_one zero = 1
at_least_one (suc n) = suc n

module _ (describe : CoreError → String) (describe_transport : TransportError → String) {T : Type 0}
    (adapter : Transport T) (channel_id message_id now : String)
    (prepare : T → Database → Result CoreError PreparedPublication × Database) where
  abbrev pub confirmed : ℕ → World T → Step T
  confirmed conflicts w =
      let (done, db) = mark_published message_id now w.database in
      let w' : World T = record w { database = db } in
      try_then (map_err storage done) w'
        λ _. (ok (record { published = message_id ∷ []; conflicts = conflicts; deferred = [] }), w')

  abbrev pub deferred : ℕ → World T → Step T
  deferred conflicts w =
      (ok (record { published = []; conflicts = conflicts; deferred = message_id ∷ [] }), w)

  abbrev pub failed : String → ℕ → World T → Step T
  failed error conflicts w =
      let (done, db) = record_attempt_failure message_id error now w.database in
      let w' : World T = record w { database = db } in
      try_then (map_err storage done) w' λ _. deferred conflicts w'

  abbrev pub stop : TransportError → World T → Step T
  stop error w =
      let (result, db) = halt describe describe_transport channel_id error now w.database in
      (result, record w { database = db })

  -- The `match` on the result of `publish`; `again` is the next iteration.
  abbrev pub answered :
      (World T → Step T) → ℕ → Result TransportError Publication × T → Database → Step T
  answered again conflicts (ok _, t) db =
      confirmed conflicts (record { transport = t; database = db })
  answered again conflicts (err error, t) db =
      let w : World T = record { transport = t; database = db } in
      let next = again w in
      elim (failure error) [
        | retry ↦ next
        | halts ↦ stop error w
        | defers ↦ failed (describe_transport error) conflicts w
      ]

  abbrev pub prepared : (World T → Step T) → ℕ → GroupState → PreparedPublication → World T → Step T
  prepared again conflicts group already_published w = confirmed conflicts w
  prepared again conflicts group defer w = deferred conflicts w
  prepared again conflicts group (publish_object object) w =
      answered again conflicts
        (adapter.publish
          (record { expected_revision = group.revision; class = data_class; objects = object ∷ [] })
          w.transport)
        w.database

  abbrev pub opened : (World T → Step T) → ℕ → Result TransportError GroupState → World T → Step T
  opened again conflicts (err error) w = stop error w
  opened again conflicts (ok group) w =
      let (object, db) = prepare w.transport w.database in
      let w' : World T = record w { database = db } in
      try_then object w' λ p. prepared again conflicts group p w'

  unfoldable pub attempt : ℕ → ℕ → World T → Step T
  attempt zero conflicts w = failed exhausted conflicts w
  attempt (suc attempts) conflicts w =
      opened (attempt attempts (suc conflicts)) conflicts (adapter.open_group w.transport) w

  unfoldable pub publish_one_prepared : ℕ → World T → Step T
  unfolding attempt
  publish_one_prepared max_attempts w = attempt (at_least_one max_attempts) 0 w
