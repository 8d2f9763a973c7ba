-- ===== src/Outbox/Refinement.antt =====
-- crates/hrc-storage/src/outbox.rs: what the reports on a publication do to the table, and to the map
-- that publishing keeps of it.
use mathlib.Core.Path.{subst}
use herdr_remote_channel.Prelude.{
  String, suc, ◌⊎◌, ◌≡◌, refl, ◌∙◌, ap, none, some, inl, inr, List, find, str_eq, eq_iff, eq_refl,
  if◌then◌else◌, Bool-cases, Option-cases,
}
use herdr_remote_channel.Errors.{StorageError, unknown_message, Result, ok, err}
use herdr_remote_channel.Storage.{OutboxRecord, Database, OutboxState, published}
use herdr_remote_channel.Storage
use herdr_remote_channel.Inbound.Queries.{select}
use herdr_remote_channel.Outbox.{OutboxRow, Tables}
use herdr_remote_channel.Outbox.Latest.{if_first}
use herdr_remote_channel.Outbox.Queries.{update_where}
use herdr_remote_channel.Outbox.Updates.{
  has_id, update_row, as_published, mark_published, with_failure, record_attempt_failure,
}
use herdr_remote_channel.Outbox.Represents.{
  record_of, Represents, find-update_where, any-none, any-some, marked, failed,
}

-- A statement found no row of the message: it says so, and changes nothing.
pub record Refuses {A : Type 0} (message_id : String) (db : Database) (t : Tables)
    (abstract : Result StorageError A × Database) (detailed : Result StorageError A × Tables)
    : Type 0 where
  pub abstract_refuses : abstract ≡ (err (unknown_message message_id), db)
  pub detailed_refuses : detailed ≡ (err (unknown_message message_id), t)

-- A statement wrote the message's row, as given, and no other; the map represents the table again.
pub record Writes {A : Type 0} (message_id : String) (t : Tables) (new : OutboxRow) (answer : A)
    (abstract : Result StorageError A × Database) (detailed : Result StorageError A × Tables)
    : Type 0 where
  pub abstract_answers : abstract.0 ≡ ok answer
  pub detailed_answers : detailed.0 ≡ ok answer
  pub rows :
      (id : String)
      → find (has_id id) detailed.1.outbox
        ≡ (if str_eq message_id id then some new else find (has_id id) t.outbox)
  pub represents : Represents (abstract.1) (detailed.1)

found-update_where :
    (message_id id : String) (change : OutboxRow → OutboxRow) (rows : List OutboxRow)
    (row : OutboxRow)
    → ((x : OutboxRow) → (change x).message_id ≡ x.message_id)
    → find (has_id message_id) rows ≡ some row
    → find (has_id id) (update_where (has_id message_id) change rows)
      ≡ (if str_eq message_id id then some (change row) else find (has_id id) rows)
found-update_where message_id id change rows row same found =
    find-update_where message_id id change same rows ∙ elim (Bool-cases (str_eq message_id id)) [
      | inl own ↦ rw own (
          ap (select change)
            (subst (λ i. find (has_id i) rows ≡ some row) ((eq_iff message_id id).0 own) found))
      | inr other ↦ rw other refl
    ]

marked-Writes :
    (db : Database) (t : Tables) (message_id now : String) (row : OutboxRow)
    → Represents db t
    → find (has_id message_id) t.outbox ≡ some row
    → Writes message_id t
        (record row { state = published; last_error = none; updated_at = now })
        tt
        (Storage.mark_published message_id now db)
        (mark_published message_id now t)
unfolding Storage.mark_published mark_published update_row
marked-Writes db t message_id now row rep found = record {
  abstract_answers = rw (rep message_id ∙ ap (select record_of) found, Storage.mark_published) refl;
  detailed_answers = rw (any-some _ t.outbox row found, mark_published) refl;
  rows = λ id.
      rw (any-some _ t.outbox row found, mark_published)
        (found-update_where message_id id (as_published now) t.outbox row (λ x. refl) found);
  represents = (marked db t message_id now rep).1;
}

failed-Writes :
    (db : Database) (t : Tables) (message_id error now : String) (row : OutboxRow)
    → Represents db t
    → find (has_id message_id) t.outbox ≡ some row
    → Writes message_id t
        (record row { attempts = suc row.attempts; last_error = some error; updated_at = now })
        (suc row.attempts)
        (Storage.record_attempt_failure message_id error now db)
        (record_attempt_failure message_id error now t)
unfolding Storage.record_attempt_failure record_attempt_failure
failed-Writes db t message_id error now row rep found =
    let change = with_failure error now in
    let written =
      λ (id : String). found-update_where message_id id change t.outbox row (λ x. refl) found in
    let here = written message_id ∙ if_first (eq_refl message_id) (some (change row)) _ in
    record {
      abstract_answers =
          rw (rep message_id ∙ ap (select record_of) found, Storage.record_attempt_failure) refl;
      detailed_answers = rw (here, record_attempt_failure) refl;
      rows = λ id. rw (here, record_attempt_failure) (written id);
      represents = (failed db t message_id error now rep).1;
    }

marked-Refuses :
    (db : Database) (t : Tables) (message_id now : String)
    → Represents db t
    → find (has_id message_id) t.outbox ≡ none
    → Refuses message_id db t
        (Storage.mark_published message_id now db)
        (mark_published message_id now t)
unfolding Storage.mark_published mark_published update_row
marked-Refuses db t message_id now rep nothing = record {
  abstract_refuses =
      rw (rep message_id ∙ ap (select record_of) nothing, Storage.mark_published) refl;
  detailed_refuses = rw (any-none _ t.outbox nothing, mark_published) refl;
}

failed-Refuses :
    (db : Database) (t : Tables) (message_id error now : String)
    → Represents db t
    → find (has_id message_id) t.outbox ≡ none
    → Refuses message_id db t
        (Storage.record_attempt_failure message_id error now db)
        (record_attempt_failure message_id error now t)
unfolding Storage.record_attempt_failure record_attempt_failure
failed-Refuses db t message_id error now rep nothing =
    let change = with_failure error now in
    let again =
      find-update_where message_id message_id change (λ x. refl) t.outbox
      ∙ if_first (eq_refl message_id) (select change (find (has_id message_id) t.outbox))
          (find (has_id message_id) t.outbox) in
    record {
      abstract_refuses =
          rw (rep message_id ∙ ap (select record_of) nothing, Storage.record_attempt_failure) refl;
      detailed_refuses = rw (again, nothing, record_attempt_failure) refl;
    }

-- The two reports on a publication, on the map that publishing keeps and on the table that it
-- represents. Without a row of the message both are refused on either side and change nothing. With
-- one, the first makes the row published, with no error, the second counts one more attempt, with
-- the error, and answers with that count; both set the time of the update, keep the row's other
-- columns and every other row, and the new map represents the new table.
pub Storage-refined :
    (db : Database) (t : Tables) (message_id error now : String)
    → Represents db t
    → ((find (has_id message_id) t.outbox ≡ none)
        × Refuses message_id db t
            (Storage.mark_published message_id now db)
            (mark_published message_id now t)
        × Refuses message_id db t
            (Storage.record_attempt_failure message_id error now db)
            (record_attempt_failure message_id error now t))
      ⊎ ((row : OutboxRow) × (find (has_id message_id) t.outbox ≡ some row)
          × Writes message_id t
              (record row { state = published; last_error = none; updated_at = now })
              tt
              (Storage.mark_published message_id now db)
              (mark_published message_id now t)
          × Writes message_id t
              (record row {
                attempts = suc row.attempts;
                last_error = some error;
                updated_at = now;
              })
              (suc row.attempts)
              (Storage.record_attempt_failure message_id error now db)
              (record_attempt_failure message_id error now t))
Storage-refined db t message_id error now rep =
    elim (Option-cases (find (has_id message_id) t.outbox)) [
      | inl nothing ↦ inl (
        nothing,
        marked-Refuses db t message_id now rep nothing,
        failed-Refuses db t message_id error now rep nothing,
      )
      | inr (row, found) ↦ inr (
        row,
        found,
        marked-Writes db t message_id now row rep found,
        failed-Writes db t message_id error now row rep found,
      )
    ]
