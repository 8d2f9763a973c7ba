-- ===== src/Sync/Examples.antt =====
-- Tests of synchronization with the in-memory adapter and with a transport that lies, and its
-- theorems there.
use herdr_remote_channel.Prelude.{String, ◌≡◌, refl, false, none, some, [], ◌∷◌, arith}
use herdr_remote_channel.Prelude.BTreeMap.{get, insert}
use herdr_remote_channel.Prelude.Decimal.{decimal}
use herdr_remote_channel.Errors.{CoreError, Result, ok, err, broken_chain, synchronization_halted}
use herdr_remote_channel.Transport.{
  Transport, TransportError, Publication, message_object, data_class, no_such_group, PublishObject,
  is_control,
}
use herdr_remote_channel.Transport.Memory.{
  open_group, MemoryTransport, memory, create_group, publish, last_revision, fetch,
}
use herdr_remote_channel.Transport.Memory.Reading.{cursor_at}
use herdr_remote_channel.Transport.Examples.{digest, spoken, spoken-IsLinear}
use herdr_remote_channel.Storage.{Database, queued}
use herdr_remote_channel.Sync.{PublishOutcome, fetch_once, PreparedPublication, publish_object}
use herdr_remote_channel.Sync.CatchUp.{fetch_rounds}
use herdr_remote_channel.Sync.Halting.{fetch_failure_halts}
use herdr_remote_channel.Sync.Chained.{Reads, fetch_once-Chained}
use herdr_remote_channel.Sync.Publishing.{World, publish_one_prepared}
use herdr_remote_channel.Sync.Arrival.{Arrives, publish_one_prepared-Arrives}

abbrev describe : CoreError → String
describe _ = "failure"

abbrev describe_transport : TransportError → String
describe_transport _ = "transport failure"

-- The channel "c", never read.
abbrev unread : Database
unread = record {
  channel = ("c", record { sync_cursor = none; halted_reason = none }) ∷ [];
  outbox = ("m", record { state = queued; attempts = 0; last_error = none; updated_at = "t" }) ∷ [];
  audit = [];
}

-- A publication that claims to follow one that the client never saw.
abbrev stray : Publication
stray = record {
  revision = "rev-2";
  parent_revision = some "rev-1";
  class = data_class;
  transport_time = "t";
  objects = [];
}

-- A transport that shows the stray publication to every reader.
abbrev lying : Transport (Unit {0})
lying = record {
  create_group = λ objects t. (err no_such_group, t);
  open_group = λ t. err no_such_group;
  publish = λ request t. (err no_such_group, t);
  fetch = λ after limit t.
      ok
        (record { publications = stray ∷ []; cursor = some "rev-2"; more = false; anomalies = [] });
}

fetch_failure_halts_example :
    let db' = (fetch_once describe describe_transport lying tt "c" 9 "now" unread).1 in
    (get "c" db'.channel ≡ some (record { sync_cursor = none; halted_reason = some "failure" }))
    × (fetch_once describe describe_transport (memory digest) spoken "c" 9 "later" db'
        ≡ (err (synchronization_halted "failure"), db'))
fetch_failure_halts_example =
    fetch_failure_halts describe describe_transport lying tt (memory digest) spoken "c" 9 9 "now"
      "later" unread (record { sync_cursor = none; halted_reason = none })
      (broken_chain "genesis" "rev-1") (unfold get in refl) refl (unfold fetch_once get in refl)

fetch_once-Chained_example :
    Reads describe describe_transport "c"
      (record { sync_cursor = none; halted_reason = none })
      (fetch none 9 spoken)
      (fetch_once describe describe_transport (memory digest) spoken "c" 9 "now" unread).1
fetch_once-Chained_example =
    fetch_once-Chained describe describe_transport (memory digest) spoken "c" 9 "now" unread
      (record { sync_cursor = none; halted_reason = none }) (unfold get in refl) refl
      (unfold fetch_once fetch create_group publish get last_revision decimal insert in refl)

abbrev ready : World MemoryTransport
ready = record { transport = spoken; database = unread }

abbrev sealed : PublishObject
sealed = record { name = "m"; class = message_object; bytes = 7 ∷ [] }

abbrev prepare : MemoryTransport → Database → Result CoreError PreparedPublication × Database
prepare t db = (ok (publish_object sealed), db)

-- The record is published at once.
abbrev outcome : PublishOutcome
outcome = record { published = "m" ∷ []; conflicts = 0; deferred = [] }

publish_one_prepared-Arrives_example :
    let step =
      publish_one_prepared describe describe_transport
        (memory digest)
        "c"
        "m"
        "now"
        prepare
        3
        ready in
    Arrives digest "c" "m" "now" sealed
      (record { state = queued; attempts = 0; last_error = none; updated_at = "t" })
      spoken
      step
      (fetch_rounds describe describe_transport digest step.1.transport 1 "c" 3 "later" unread)
publish_one_prepared-Arrives_example =
    publish_one_prepared-Arrives digest describe describe_transport prepare 3 ready "c" "m" "now"
      sealed (record { state = queued; attempts = 0; last_error = none; updated_at = "t" }) 0 1 3
      "later" unread refl (unfold get in refl) spoken-IsLinear
      (unfold create_group publish get last_revision decimal insert in refl)
      (unfold is_control in refl) (omega arith)
      (unfold create_group publish get last_revision decimal insert in refl) (omega arith)
      (unfold create_group publish get last_revision decimal insert in omega arith)
      (unfold cursor_at get last_revision in refl)
