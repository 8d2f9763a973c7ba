-- ===== src/Sync/Chained.antt =====
-- The pages that a client accepts from a transport that it does not trust are unbroken chains.
use mathlib.Core.Path.{subst}
use herdr_remote_channel.Prelude.{
  length, sym, ℕ, String, ◌≡◌, refl, true, Option, none, some, List, [], ◌∷◌, eq_iff, arith, inl,
  inr,
}
use herdr_remote_channel.Prelude.BTreeMap.{get}
use herdr_remote_channel.Errors.{CoreError, Result, is_ok, ok, err, Result-cases, ◌>>◌}
use herdr_remote_channel.Transport.{
  PublicationClass, genesis, is_genesis, Publication, FetchPage, Transport, TransportError,
}
use herdr_remote_channel.Sync.CatchUp.{process-row}
use herdr_remote_channel.Sync.Steps.{fetch_once-page}
use herdr_remote_channel.Transport.Memory.{last_revision}
use herdr_remote_channel.Storage.{Database, ChannelRecord}
use herdr_remote_channel.Sync.{
  verify_chain, check_parent, process_checked, FetchOutcome, reject_anomalies, process_page,
  read_page, fetch_once,
}

-- Each publication names the one before it as its parent; a history starts with a genesis.
abbrev pub Chained : Option String → List Publication → Type 0
Chained expected [] = Unit
Chained expected (p ∷ ps) =
    (p.parent_revision ≡ expected)
    × (expected ≡ none → p.class ≡ genesis)
    × Chained (some p.revision) ps

is_genesis_sound : (class : PublicationClass) → is_genesis class ≡ true → class ≡ genesis
is_genesis_sound genesis h = refl
is_genesis_sound _ h = cc

check_parent_sound :
    (expected found : Option String) (class : PublicationClass) {u : Unit {0}}
    → check_parent expected found class ≡ ok u
    → (found ≡ expected) × (expected ≡ none → class ≡ genesis)
check_parent_sound none none class h = (refl, λ _. ground (arith, is_genesis_sound class))
check_parent_sound (some e) (some f) class h = (ground (arith, eq_iff e f), λ n. cc)
check_parent_sound none (some f) class h = cc
check_parent_sound (some e) none class h = cc

verify_chain-Chained :
    (expected : Option String) (ps : List Publication) {u : Unit {0}}
    → verify_chain expected ps ≡ ok u
    → Chained expected ps
unfolding verify_chain
verify_chain-Chained expected [] h = tt
verify_chain-Chained expected (p ∷ ps) h =
    elim (Result-cases (check_parent expected p.parent_revision p.class)) [
      | inl (u, e) ↦
          let (parent, first) = check_parent_sound expected p.parent_revision p.class e in
          (parent, first, verify_chain-Chained (some p.revision) ps (ground arith))
      | inr (x, e) ↦ ground arith
    ]

module _ (describe : CoreError → String) (describe_transport : TransportError → String) where
  -- The page fetched is a chain from the row's cursor, and the cursor is now at its end.
  abbrev pub Reads : String → ChannelRecord → Result TransportError FetchPage → Database → Type 0
  Reads channel_id row fetched db =
      (page : FetchPage) × (fetched ≡ ok page)
      × Chained row.sync_cursor page.publications
      × (get channel_id db.channel
          ≡ some (record row { sync_cursor = last_revision row.sync_cursor page.publications }))

  abbrev Accepts :
      String
      → ChannelRecord
      → Result TransportError FetchPage
      → Result CoreError FetchOutcome × Database
      → Type 0
  Accepts channel_id row fetched step = is_ok step.0 ≡ true → Reads channel_id row fetched step.1

  process_page-Accepts :
      (channel_id : String) (now : String) (db : Database) (row : ChannelRecord)
      (fetched : Result TransportError FetchPage)
      → get channel_id db.channel ≡ some row
      → Accepts channel_id row fetched (
          process_page describe describe_transport channel_id row.sync_cursor now db
            (read_page describe describe_transport fetched))
  process_page-Accepts channel_id now db row (err error) found h = ground arith
  process_page-Accepts channel_id now db row (ok page) found h =
      readable (reject_anomalies describe describe_transport page.anomalies) h
    where
      cursor : Option String
      cursor = row.sync_cursor

      checked :
          (r : Result CoreError (Unit {0}))
          → verify_chain cursor page.publications ≡ r
          → Accepts channel_id row
              (ok page)
              (process_checked describe describe_transport channel_id page.publications now db r)
      checked (err x) verified h = ground arith
      checked (ok u) verified h = (
        page,
        refl,
        verify_chain-Chained cursor page.publications verified,
        (process-row describe describe_transport channel_id page.publications
            (record {
              publications = length page.publications;
              control_objects = 0;
              message_objects = 0;
              cursor = none;
            })
            db row found).1,
      )

      readable :
          (r : Result TransportError (Unit {0}))
          → Accepts channel_id row
              (ok page)
              (process_page describe describe_transport channel_id cursor now db (r >> ok page))
      readable (err x) h = ground arith
      readable (ok u) h = checked (verify_chain cursor page.publications) refl h

  -- A fetch on a registered, running channel that succeeds moved the cursor to the end of the page
  -- that the transport showed; in it every publication names the one before it, from the stored
  -- cursor on, and a history starts with a genesis.
  pub fetch_once-Chained :
      {T : Type 0} (adapter : Transport T) (t : T) (channel_id : String) (limit : ℕ) (now : String)
      (db : Database) (row : ChannelRecord)
      → get channel_id db.channel ≡ some row
      → row.halted_reason ≡ none
      → is_ok (fetch_once describe describe_transport adapter t channel_id limit now db).0 ≡ true
      → Reads channel_id row
          (adapter.fetch row.sync_cursor limit t)
          (fetch_once describe describe_transport adapter t channel_id limit now db).1
  fetch_once-Chained adapter t channel_id limit now db row found running =
      subst (Accepts channel_id row (adapter.fetch row.sync_cursor limit t))
        (sym (
          fetch_once-page describe describe_transport adapter t channel_id limit now db row found
            running))
        (process_page-Accepts channel_id now db row (adapter.fetch row.sync_cursor limit t) found)
