-- ===== src/Outbox/Examples.antt =====
-- Tests of the outbox over toy hashes, and its theorems there.
use herdr_remote_channel.Prelude.{
  String, ◌≡◌, refl, false, none, some, List, [], ◌∷◌, find, ◌⊎◌, suc,
}
use herdr_remote_channel.Errors.{ProtocolError, StorageError, unknown_channel, Result, ok, err}
use herdr_remote_channel.Protocol.Canonical.{expect_hex_digest}
use herdr_remote_channel.Storage.{published, gap}
use herdr_remote_channel.Outbox.{OutgoingReservation, OutgoingBuild, OutboxRow, Tables, ChainLink}
use herdr_remote_channel.Outbox.Compose.{
  Composition, reservation_of, allocate_in, allocate_outgoing, compose_in, compose_outgoing,
}
use herdr_remote_channel.Outbox.Updates.{
  has_id, queue_outgoing_resealable, replace_outgoing_ciphertext, recover_reservations,
}
use herdr_remote_channel.Outbox.Readings.{pending_outgoing, outbox_state}
use herdr_remote_channel.Outbox.Step.{composes, Steps, stay, then_step, queues, replaces}
use herdr_remote_channel.Prelude.BTreeMap.{get}
use herdr_remote_channel.Prelude.{arith}
use herdr_remote_channel.Protocol.Envelope.{RecipientDevices}
use herdr_remote_channel.Storage
use herdr_remote_channel.Storage.{Database}
use herdr_remote_channel.Outbox.Recipients.{recipient_devices}
use herdr_remote_channel.Outbox.Updates.{mark_published, record_attempt_failure}
use herdr_remote_channel.Outbox.Links.{Follows, compose_outgoing-Follows}
use herdr_remote_channel.Outbox.Refinement.{Refuses, Writes, Storage-refined}
use herdr_remote_channel.Outbox.Represents.{record_of, Represents}
use herdr_remote_channel.Outbox.Numbered.{IsNumbered, Steps-IsNumbered}
use herdr_remote_channel.Outbox.Published.{Steps-published}

abbrev hash_link : ChainLink → Result ProtocolError String
hash_link link = ok link.message_id

abbrev hash_ids : List String → Result ProtocolError String
hash_ids ids = ok "ids"

abbrev id : StorageError → StorageError
id e = e

abbrev empty_tables : Tables
empty_tables = record {
  channel = "c" ∷ [];
  device_sequence = [];
  outbox = [];
  outbox_recipient = [];
}

abbrev recipient : String
recipient = "00000000000000000000000000000000000000000000000000000000000000aa"

abbrev composition : String → Composition
composition message_id = record {
  channel_id = "c";
  device_id = "d";
  message_id = message_id;
  roster_epoch = 1;
  payload_hash = "p";
  thread_id = "t";
  kind = "message";
  in_reply_to = none;
  recipient_device_ids = recipient ∷ [];
  now = "t1";
}

abbrev build : OutgoingReservation → Result StorageError OutgoingBuild
build r = ok (record { ciphertext = 1 ∷ []; reseal_material = 2 ∷ [] })

-- The tables after one message, then after a second.
abbrev one_sent : Tables
one_sent = (compose_outgoing hash_link hash_ids id (composition "m1") build empty_tables).1

-- A number that was allocated and abandoned is no predecessor: the second message names the first.
second_reservation :
    (compose_outgoing hash_link hash_ids id
      (composition "m3")
      build
      ((allocate_outgoing hash_link hash_ids "c" "d" "m2" 1 "p" "t1" one_sent).1)).0
    ≡ ok (record {
      message_id = "m3";
      device_sequence = 3;
      chain_id = "m3";
      previous_chain_id = some "m1";
      roster_epoch = 1;
      recipient_previous_chain_ids = (recipient, some "m1") ∷ [];
    })
unfolding expect_hex_digest reservation_of compose_in allocate_in
second_reservation = refl

unknown_channel_refused :
    compose_outgoing hash_link hash_ids id
      (composition "m1")
      build
      (record empty_tables { channel = [] })
    ≡ (err (unknown_channel "c"), record empty_tables { channel = [] })
unfolding expect_hex_digest compose_in
unknown_channel_refused = refl

abandoned :
    let t = (allocate_outgoing hash_link hash_ids "c" "d" "m2" 1 "p" "t1" one_sent).1 in
    let recovered = recover_reservations "c" "t2" t in
    (recovered.0 ≡ 1)
    × (outbox_state (recovered.1) "m2" ≡ some gap)
    × (pending_outgoing (recovered.1) "c" ≡ "m1" ∷ [])
unfolding expect_hex_digest reservation_of compose_in allocate_in recover_reservations outbox_state
    pending_outgoing
abandoned = (refl, refl, refl)

abbrev published_row : OutboxRow
published_row = record {
  message_id = "m1";
  channel_id = "c";
  device_id = "d";
  device_sequence = 1;
  chain_id = "l1";
  previous_chain_id = none;
  roster_epoch = 1;
  payload_hash = "p";
  ciphertext = some (1 ∷ []);
  reseal_material = none;
  thread_id = none;
  kind = none;
  in_reply_to = none;
  state = published;
  attempts = 1;
  last_error = none;
  created_at = "t1";
  updated_at = "t1";
  recipient_order_stale = false;
}

abbrev published_tables : Tables
published_tables = record empty_tables {
  device_sequence =
      record { channel_id = "c"; device_id = "d"; last_sequence = 1; last_chain_id = some "l1" }
      ∷ [];
  outbox = published_row ∷ [];
}

abbrev later : Tables
later = (queue_outgoing_resealable "m1" (9 ∷ []) none "t2" published_tables).1

abbrev rebuilt : Tables
rebuilt = (replace_outgoing_ciphertext "m1" 1 2 (9 ∷ []) "t3" later).1

later-Steps : Steps hash_link hash_ids id published_tables rebuilt
later-Steps =
    then_step (then_step (stay published_tables) (queues "m1" (9 ∷ []) none "t2" published_tables))
      (replaces "m1" 1 2 (9 ∷ []) "t3" later)

Steps-published_example :
    (r' : OutboxRow) × (find (has_id "m1") rebuilt.outbox ≡ some r')
    × (r'.state ≡ published)
    × (r'.ciphertext ≡ some (1 ∷ []))
    × (r'.device_sequence ≡ 1)
    × (r'.chain_id ≡ "l1")
Steps-published_example =
    Steps-published hash_link hash_ids id published_tables rebuilt "m1" published_row later-Steps
      refl refl

compose_outgoing-Follows_example :
    (recipients : RecipientDevices) × (recipient_devices hash_ids (recipient ∷ []) ≡ ok recipients)
    × Follows published_tables.outbox [] 1 (composition "m2") recipients.device_ids (record {
      message_id = "m2";
      device_sequence = 2;
      chain_id = "m2";
      previous_chain_id = some "l1";
      roster_epoch = 1;
      recipient_previous_chain_ids = (recipient, none) ∷ [];
    })
unfolding expect_hex_digest reservation_of compose_in
compose_outgoing-Follows_example =
    compose_outgoing-Follows hash_link hash_ids id (composition "m2") build published_tables _ refl

-- The map that publishing keeps of the table with one row.
abbrev database : Database
database = record { channel = []; outbox = ("m1", record_of published_row) ∷ []; audit = [] }

database-Represents : Represents database published_tables
unfolding get
database-Represents id = ground arith

Storage-refined_example :
    ((find (has_id "m1") published_tables.outbox ≡ none)
      × Refuses "m1" database published_tables
          (Storage.mark_published "m1" "t2" database)
          (mark_published "m1" "t2" published_tables)
      × Refuses "m1" database published_tables
          (Storage.record_attempt_failure "m1" "e" "t2" database)
          (record_attempt_failure "m1" "e" "t2" published_tables))
    ⊎ ((row : OutboxRow) × (find (has_id "m1") published_tables.outbox ≡ some row)
        × Writes "m1" published_tables
            (record row { state = published; last_error = none; updated_at = "t2" })
            tt
            (Storage.mark_published "m1" "t2" database)
            (mark_published "m1" "t2" published_tables)
        × Writes "m1" published_tables
            (record row { attempts = suc row.attempts; last_error = some "e"; updated_at = "t2" })
            (suc row.attempts)
            (Storage.record_attempt_failure "m1" "e" "t2" database)
            (record_attempt_failure "m1" "e" "t2" published_tables))
Storage-refined_example =
    Storage-refined database published_tables "m1" "e" "t2" database-Represents

published-IsNumbered : IsNumbered published_tables
published-IsNumbered = omega arith

Steps-IsNumbered_example :
    IsNumbered
      ((compose_outgoing hash_link hash_ids id (composition "m2") build published_tables).1)
Steps-IsNumbered_example =
    Steps-IsNumbered hash_link hash_ids id published_tables
      ((compose_outgoing hash_link hash_ids id (composition "m2") build published_tables).1)
      (then_step (stay published_tables) (composes (composition "m2") build published_tables))
      published-IsNumbered

abbrev recipients : RecipientDevices
recipients = record { device_ids = recipient ∷ []; devices_hash = "ids" }
