-- ===== src/Storage.antt =====
-- crates/hrc-storage/src: the rows of the local database that synchronization reads and writes. An
-- SQL update by primary key is a write to a map; a failure of the database itself is left out.
use herdr_remote_channel.Prelude.{ℕ, suc, String, Option, none, some, List, [], ◌∷◌, ◌++◌}
use herdr_remote_channel.Prelude.BTreeMap.{BTreeMap, get, insert}
use herdr_remote_channel.Errors.{StorageError, unknown_channel, unknown_message, Result, ok, err}

-- The columns of `channel` that synchronization uses.
pub record ChannelRecord : Type 0 where
  pub sync_cursor : Option String
  pub halted_reason : Option String

pub data OutboxState : Type 0 where
  reserved queued publishing published gap failed : OutboxState

-- The columns of `outbox` that publishing uses.
pub record OutboxRecord : Type 0 where
  pub state : OutboxState
  pub attempts : ℕ
  pub last_error : Option String
  pub updated_at : String

pub record AuditEntry : Type 0 where
  pub channel_id : Option String
  pub action : String
  pub detail : Option String
  pub occurred_at : String

pub record Database : Type 0 where
  pub channel : BTreeMap ChannelRecord
  pub outbox : BTreeMap OutboxRecord
  pub audit : List AuditEntry

abbrev pub with_channel : String → ChannelRecord → Database → Database
with_channel channel_id row db = record db { channel = insert channel_id row db.channel }

unfoldable pub set_sync_cursor :
    String → String → Database → Result StorageError (Unit {0}) × Database
set_sync_cursor channel_id cursor db = elim (get channel_id db.channel) [
  | none ↦ (err (unknown_channel channel_id), db)
  | some row ↦ (ok tt, with_channel channel_id (record row { sync_cursor = some cursor }) db)
]

-- `COALESCE(reason, new)`.
abbrev pub coalesce : Option String → String → Option String
coalesce none reason = some reason
coalesce (some first) reason = some first

unfoldable pub halt_channel : String → String → Database → Result StorageError (Unit {0}) × Database
halt_channel channel_id reason db = elim (get channel_id db.channel) [
  | none ↦ (err (unknown_channel channel_id), db)
  | some row ↦ (
    ok tt,
    with_channel channel_id (record row { halted_reason = coalesce row.halted_reason reason }) db,
  )
]

unfoldable pub append_audit : AuditEntry → Database → Database
append_audit entry db = record db { audit = db.audit ++ (entry ∷ []) }

unfoldable pub mark_published :
    String → String → Database → Result StorageError (Unit {0}) × Database
mark_published message_id now db = elim (get message_id db.outbox) [
  | none ↦ (err (unknown_message message_id), db)
  | some row ↦ (
    ok tt,
    record db {
      outbox =
          insert message_id (record row { state = published; last_error = none; updated_at = now })
            db.outbox;
    },
  )
]

unfoldable pub record_attempt_failure :
    String → String → String → Database → Result StorageError ℕ × Database
record_attempt_failure message_id error now db = elim (get message_id db.outbox) [
  | none ↦ (err (unknown_message message_id), db)
  | some row ↦ (
    ok (suc row.attempts),
    record db {
      outbox =
          insert message_id
            (record row { attempts = suc row.attempts; last_error = some error; updated_at = now })
            db.outbox;
    },
  )
]
