-- ===== src/Sync.antt =====
-- crates/hrc-core/src/sync.rs: reading a transport's history from the stored cursor, and publishing
-- what is queued.
mod Steps
pub mod CatchUp
pub mod Halting
pub mod Chained
pub mod Publishing
pub mod Outcomes
pub mod Progress
pub mod Arrival
mod Examples
use herdr_remote_channel.Prelude.{
  ℕ, suc, String, Bool, true, false, not, Option, none, some, List, [], ◌∷◌, length, str_eq, leb,
  if◌then◌else◌,
}
use herdr_remote_channel.Prelude.BTreeMap.{get}
use herdr_remote_channel.Errors.{
  CoreError, broken_chain, unknown_channel_state, synchronization_halted, transport, storage,
  Result, ok, err, ok_or, reject_if, map_err, try_then, ◌>>=◌, ◌>>◌,
}
use herdr_remote_channel.Transport.{
  PublicationClass, is_genesis, publication_class_name, ObjectClass, message_object, is_control,
  ObjectRecord, Publication, FetchPage, PublishObject, TransportError, provider, Transport,
}
use herdr_remote_channel.Storage.{
  Database, ChannelRecord, set_sync_cursor, halt_channel, append_audit,
}

pub data PollActivity : Type 0 where
  waiting active_thread background idle : PollActivity

abbrev max_duration : ℕ → ℕ → ℕ
max_duration a b = if leb a b then b else a

-- In seconds.
abbrev pub target : PollActivity → ℕ
target waiting = 5
target active_thread = 12
target background = 30
target idle = 300

unfoldable pub poll_interval : PollActivity → ℕ → ℕ
poll_interval activity adapter_minimum = max_duration (target activity) adapter_minimum

pub data NextCheck : Type 0 where
  wait poll : ℕ → NextCheck

abbrev pub duration : NextCheck → ℕ
duration (wait d) = d
duration (poll d) = d

abbrev pub maximum_wait : ℕ
maximum_wait = 60

unfoldable pub next_check : PollActivity → ℕ → Bool → NextCheck
unfolding poll_interval
next_check activity adapter_minimum supports_wait =
    if supports_wait
    then wait (max_duration maximum_wait adapter_minimum)
    else poll (poll_interval activity adapter_minimum)

-- `unwrap_or_else`.
abbrev or_else : Option String → String → String
or_else none default = default
or_else (some s) default = s

-- The `match` of `verify_chain`, on the expected and the found parent.
abbrev pub check_parent :
    Option String → Option String → PublicationClass → Result CoreError (Unit {0})
check_parent none none class =
    reject_if (not (is_genesis class)) (broken_chain "genesis" (publication_class_name class))
check_parent (some expected) (some found) class =
    reject_if (not (str_eq expected found)) (broken_chain expected found)
check_parent none (some found) class = err (broken_chain "genesis" found)
check_parent (some expected) none class = err (broken_chain expected "none")

unfoldable pub verify_chain : Option String → List Publication → Result CoreError (Unit {0})
verify_chain expected [] = ok tt
verify_chain expected (p ∷ ps) = do
  check_parent expected p.parent_revision p.class
  verify_chain (some p.revision) ps

pub record FetchOutcome : Type 0 where
  pub publications : ℕ
  pub control_objects : ℕ
  pub message_objects : ℕ
  pub cursor : Option String

abbrev is_message : ObjectClass → Bool
is_message message_object = true
is_message _ = false

unfoldable pub count_objects : List ObjectRecord → FetchOutcome → FetchOutcome
unfolding is_control
count_objects [] outcome = outcome
count_objects (o ∷ objects) outcome = count_objects objects (
    if is_control o.class
    then record outcome { control_objects = suc outcome.control_objects }
    else if is_message o.class
    then record outcome { message_objects = suc outcome.message_objects }
    else outcome)

pub record PublishOutcome : Type 0 where
  pub published : List String
  pub conflicts : ℕ
  pub deferred : List String

pub data PreparedPublication : Type 0 where
  publish_object : PublishObject → PreparedPublication
  already_published defer : PreparedPublication

-- `describe` and `describe_transport` are the `Display` texts that `thiserror` generates.
module _ (describe : CoreError → String) (describe_transport : TransportError → String) where
  unfoldable pub halt_synchronization : String → CoreError → String → Database → Database
  unfolding halt_channel append_audit
  halt_synchronization channel_id error now db =
      append_audit
        (record {
          channel_id = some channel_id;
          action = "synchronization_halted";
          detail = some (describe error);
          occurred_at = now;
        })
        (halt_channel channel_id (describe error) db).1

  -- `return Err(halt(..))`.
  abbrev pub halt {ℓ} :
      {A : Type ℓ} → String → TransportError → String → Database → Result CoreError A × Database
  halt channel_id error now db =
      let cause = transport (describe_transport error) in
      (err cause, halt_synchronization channel_id cause now db)

  -- The loop of `fetch_once` over a page.
  unfoldable pub process :
      String → List Publication → FetchOutcome → Database → Result CoreError FetchOutcome × Database
  unfolding set_sync_cursor count_objects
  process channel_id [] outcome db = (ok outcome, db)
  process channel_id (p ∷ ps) outcome db =
      let (done, db') = set_sync_cursor channel_id p.revision db in
      let rest =
        process channel_id ps
          (record (count_objects p.objects outcome) { cursor = some p.revision }) db' in
      try_then (map_err storage done) db' λ _. rest

  abbrev reject_anomalies : List String → Result TransportError (Unit {0})
  reject_anomalies [] = ok tt
  reject_anomalies (anomaly ∷ _) = err (provider anomaly)

  abbrev pub read_page : Result TransportError FetchPage → Result TransportError FetchPage
  read_page fetched = do page ← fetched; reject_anomalies page.anomalies; ok page

  abbrev not_halted : Option String → Result CoreError (Unit {0})
  not_halted none = ok tt
  not_halted (some reason) = err (synchronization_halted reason)

  abbrev pub open_channel : String → Database → Result CoreError ChannelRecord
  open_channel channel_id db = do
    channel ← ok_or (get channel_id db.channel) (unknown_channel_state channel_id)
    not_halted channel.halted_reason
    ok channel

  -- What follows `verify_chain`.
  abbrev pub process_checked :
      String
      → List Publication
      → String
      → Database
      → Result CoreError (Unit {0})
      → Result CoreError FetchOutcome × Database
  process_checked channel_id ps now db (err error) =
      (err error, halt_synchronization channel_id error now db)
  process_checked channel_id ps now db (ok _) =
      process channel_id ps
        (record {
          publications = length ps;
          control_objects = 0;
          message_objects = 0;
          cursor = none;
        })
        db

  -- What follows `transport.fetch`.
  abbrev pub process_page :
      String
      → Option String
      → String
      → Database
      → Result TransportError FetchPage
      → Result CoreError FetchOutcome × Database
  process_page channel_id cursor now db (err error) = halt channel_id error now db
  process_page channel_id cursor now db (ok page) =
      process_checked channel_id page.publications now db (verify_chain cursor page.publications)

  unfoldable pub fetch_once :
      {T : Type 0}
      → Transport T
      → T
      → String
      → ℕ
      → String
      → Database
      → Result CoreError FetchOutcome × Database
  unfolding process halt_synchronization verify_chain
  fetch_once adapter t channel_id limit now db = try_then (open_channel channel_id db) db λ channel.
      process_page channel_id channel.sync_cursor now db
        (read_page (adapter.fetch channel.sync_cursor limit t))
