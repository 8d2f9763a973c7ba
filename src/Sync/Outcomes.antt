-- ===== src/Sync/Outcomes.antt =====
-- What `publish_one_prepared` reports of its record, and what it leaves in the outbox.
use herdr_remote_channel.Prelude.{
  ℕ, ◌≤◌, String, ◌≡◌, Bool, true, false, Option, none, some, [], ◌∷◌, ◌⊎◌,
}
use herdr_remote_channel.Prelude.BTreeMap.{get}
use herdr_remote_channel.Errors.{ok}
use herdr_remote_channel.Transport.{Transport}
use herdr_remote_channel.Storage.{Database, OutboxRecord, OutboxState, published}
use herdr_remote_channel.Sync.{PublishOutcome}
use herdr_remote_channel.Sync.Publishing.{Step, deferred}

abbrev is_published_state : OutboxState → Bool
is_published_state published = true
is_published_state _ = false

abbrev is_published_row : Option OutboxRecord → Bool
is_published_row none = false
is_published_row (some row) = is_published_state row.state

abbrev pub is_published : String → Database → Bool
is_published message_id db = is_published_row (get message_id db.outbox)

-- An outcome that reports the record either as published, and then the outbox says so, or as
-- deferred, after at most `bound` conflicts.
abbrev pub Reports : String → ℕ → PublishOutcome → Database → Type 0
Reports message_id bound outcome db =
    (outcome.conflicts ≤ bound)
    × (((outcome.published ≡ message_id ∷ [])
          × (outcome.deferred ≡ [])
          × (is_published message_id db ≡ true))
        ⊎ ((outcome.published ≡ []) × (outcome.deferred ≡ message_id ∷ [])))

abbrev Tells : {T : Type 0} → String → ℕ → Step T → Type 0
Tells message_id bound step =
    (outcome : PublishOutcome)
    → step.0 ≡ ok outcome
    → Reports message_id bound outcome step.1.database
