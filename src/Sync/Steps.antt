-- ===== src/Sync/Steps.antt =====
-- Equations for a step of synchronization, from what the database holds for the channel.
use herdr_remote_channel.Prelude.{ℕ, String, ◌≡◌, refl, ap, none, some}
use herdr_remote_channel.Prelude.BTreeMap.{get}
use herdr_remote_channel.Errors.{CoreError, ok, try_then}
use herdr_remote_channel.Transport.{Transport, TransportError}
use herdr_remote_channel.Storage.{Database, ChannelRecord, set_sync_cursor, with_channel}
use herdr_remote_channel.Sync.{fetch_once, open_channel, process_page, read_page}

pub set_sync_cursor-row :
    (channel_id cursor : String) (db : Database) (row : ChannelRecord)
    → get channel_id db.channel ≡ some row
    → set_sync_cursor channel_id cursor db
      ≡ (ok tt, with_channel channel_id (record row { sync_cursor = some cursor }) db)
unfolding set_sync_cursor
set_sync_cursor-row channel_id cursor db row found = rw (found, set_sync_cursor) refl

module _ (describe : CoreError → String) (describe_transport : TransportError → String) where
  open_channel-row :
      (channel_id : String) (db : Database) (row : ChannelRecord)
      → get channel_id db.channel ≡ some row
      → row.halted_reason ≡ none
      → open_channel describe describe_transport channel_id db ≡ ok row
  open_channel-row channel_id db row found running = rw found (rw running refl)

  pub fetch_once-page :
      {T : Type 0} (adapter : Transport T) (t : T) (channel_id : String) (limit : ℕ) (now : String)
      (db : Database) (row : ChannelRecord)
      → get channel_id db.channel ≡ some row
      → row.halted_reason ≡ none
      → fetch_once describe describe_transport adapter t channel_id limit now db
        ≡ process_page describe describe_transport channel_id row.sync_cursor now db
            (read_page describe describe_transport (adapter.fetch row.sync_cursor limit t))
  unfolding fetch_once
  fetch_once-page adapter t channel_id limit now db row found running =
      ap
        (λ opened. try_then opened db λ channel.
          process_page describe describe_transport channel_id channel.sync_cursor now db
            (read_page describe describe_transport (adapter.fetch channel.sync_cursor limit t)))
        (open_channel-row channel_id db row found running)
