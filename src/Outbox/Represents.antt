-- ===== src/Outbox/Represents.antt =====
-- crates/hrc-storage/src/outbox.rs: publishing sees the outbox as a map of states and attempts, which
-- the reports on a publication keep in step with the table.
use mathlib.Core.Path.{subst}
use herdr_remote_channel.Prelude.{
  String, Bool, true, false, ◌≡◌, refl, sym, ◌∙◌, ap, none, some, inl, inr, List, [], ◌∷◌, find,
  str_eq, eq_iff, eq_refl, arith, if◌then◌else◌, Bool-cases, Option-cases,
}
use herdr_remote_channel.Prelude.BTreeMap.{get, insert, get-insert}
use herdr_remote_channel.Storage.{OutboxRecord, Database, OutboxState, published}
use herdr_remote_channel.Storage
use herdr_remote_channel.Inbound.Queries.{any, select}
use herdr_remote_channel.Outbox.{OutboxRow, Tables}
use herdr_remote_channel.Outbox.Latest.{if_first}
use herdr_remote_channel.Outbox.Queries.{update_where}
use herdr_remote_channel.Outbox.Updates.{
  has_id, update_row, as_published, mark_published, with_failure, record_attempt_failure,
}

abbrev pub record_of : OutboxRow → OutboxRecord
record_of row = record {
  state = row.state;
  attempts = row.attempts;
  last_error = row.last_error;
  updated_at = row.updated_at;
}

-- The map holds, under each identifier, what publishing needs of the row with that identifier.
abbrev pub Represents : Database → Tables → Type 0
Represents db t = (id : String) → get id db.outbox ≡ select record_of (find (has_id id) t.outbox)

-- A search for a message after the update of a message.
pub find-update_where :
    (message_id id : String) (change : OutboxRow → OutboxRow)
    → ((x : OutboxRow) → (change x).message_id ≡ x.message_id)
    → (rows : List OutboxRow)
    → find (has_id id) (update_where (has_id message_id) change rows) ≡ (
        if str_eq message_id id
        then select change (find (has_id id) rows)
        else find (has_id id) rows)
unfolding update_where
find-update_where message_id id change same [] = ground arith
find-update_where message_id id change same (x ∷ rows) = ground (
  arith,
  same x,
  find-update_where message_id id change same rows,
  eq_iff message_id id,
  eq_iff x.message_id id,
  eq_iff x.message_id message_id,
)

pub any-none :
    (test : OutboxRow → Bool) (rows : List OutboxRow)
    → find test rows ≡ none
    → any test rows ≡ false
any-none test [] h = refl
any-none test (x ∷ rows) h = ground (arith, any-none test rows)

pub any-some :
    (test : OutboxRow → Bool) (rows : List OutboxRow) (row : OutboxRow)
    → find test rows ≡ some row
    → any test rows ≡ true
any-some test [] row h = cc
any-some test (x ∷ rows) row h = ground (arith, any-some test rows row)

-- A write to the map is the update of the row, when the new record is that of the changed row.
insert-Represents :
    (db : Database) (t : Tables) (message_id : String) (row : OutboxRow) (new : OutboxRecord)
    (change : OutboxRow → OutboxRow)
    → ((x : OutboxRow) → (change x).message_id ≡ x.message_id)
    → Represents db t
    → find (has_id message_id) t.outbox ≡ some row
    → record_of (change row) ≡ new
    → Represents
        (record db { outbox = insert message_id new db.outbox })
        (record t { outbox = update_where (has_id message_id) change t.outbox })
insert-Represents db t message_id row new change same rep found updated id =
    get-insert message_id id new db.outbox
    ∙ elim (Bool-cases (str_eq message_id id)) [
      | inl own ↦
          let here =
            subst (λ i. find (has_id i) t.outbox ≡ some row) ((eq_iff message_id id).0 own) found in
          rw (own, here) (ap some (sym updated))
      | inr other ↦ rw (other) (rep id)
    ]
    ∙ ap (select record_of) (sym (find-update_where message_id id change same t.outbox))

pub marked :
    (db : Database) (t : Tables) (message_id now : String)
    → Represents db t
    → ((Storage.mark_published message_id now db).0 ≡ (mark_published message_id now t).0)
      × Represents
          ((Storage.mark_published message_id now db).1)
          ((mark_published message_id now t).1)
unfolding Storage.mark_published mark_published update_row
marked db t message_id now rep = elim (Option-cases (find (has_id message_id) t.outbox)) [
  | inl nothing ↦
      rw
        (
          rep message_id ∙ ap (select record_of) nothing,
          any-none _ t.outbox nothing,
          Storage.mark_published,
        )
        (refl, rep)
  | inr (row, found) ↦
      rw
        (
          rep message_id ∙ ap (select record_of) found,
          any-some _ t.outbox row found,
          Storage.mark_published,
        )
        (
          refl,
          insert-Represents db t message_id row _ (as_published now) (λ x. refl) rep found refl,
        )
]

pub failed :
    (db : Database) (t : Tables) (message_id error now : String)
    → Represents db t
    → ((Storage.record_attempt_failure message_id error now db).0
        ≡ (record_attempt_failure message_id error now t).0)
      × Represents
          ((Storage.record_attempt_failure message_id error now db).1)
          ((record_attempt_failure message_id error now t).1)
unfolding Storage.record_attempt_failure record_attempt_failure
failed db t message_id error now rep =
    let change = with_failure error now in
    let again =
      find-update_where message_id message_id change (λ x. refl) t.outbox
      ∙ if_first (eq_refl message_id) (select change (find (has_id message_id) t.outbox))
          (find (has_id message_id) t.outbox) in
    elim (Option-cases (find (has_id message_id) t.outbox)) [
      | inl nothing ↦
          rw
            (
              rep message_id ∙ ap (select record_of) nothing,
              again,
              nothing,
              Storage.record_attempt_failure,
            )
            (refl, rep)
      | inr (row, found) ↦
          rw
            (
              rep message_id ∙ ap (select record_of) found,
              again,
              found,
              Storage.record_attempt_failure,
            )
            (refl, insert-Represents db t message_id row _ change (λ x. refl) rep found refl)
    ]
