-- ===== src/Sync/Halting.antt =====
-- A fetch that fails stops the channel for good, whatever transport is asked afterwards.
use mathlib.Core.Path.{subst}
use herdr_remote_channel.Prelude.{
  length, sym, ◌∙◌, ℕ, String, ◌≡◌, refl, ap, Option, none, some, eq_refl, arith,
}
use herdr_remote_channel.Prelude.BTreeMap.{get, get-insert}
use herdr_remote_channel.Errors.{
  CoreError, transport, Result, synchronization_halted, ok, err, try_then,
}
use herdr_remote_channel.Transport.{FetchPage, Transport, TransportError}
use herdr_remote_channel.Sync.CatchUp.{process-row}
use herdr_remote_channel.Sync.Steps.{fetch_once-page}
use herdr_remote_channel.Storage.{Database, ChannelRecord, halt_channel, append_audit}
use herdr_remote_channel.Sync.{
  verify_chain, process_checked, FetchOutcome, process_page, read_page, open_channel, fetch_once,
  halt_synchronization,
}

module _ (describe : CoreError → String) (describe_transport : TransportError → String) where
  -- The channel's row once it is stopped for a reason.
  abbrev stopped : ChannelRecord → CoreError → ChannelRecord
  stopped row e = record row { halted_reason = some (describe e) }

  halt_synchronization-row :
      (channel_id : String) (e : CoreError) (now : String) (db : Database) (row : ChannelRecord)
      → get channel_id db.channel ≡ some row
      → row.halted_reason ≡ none
      → get channel_id
          (halt_synchronization describe describe_transport channel_id e now db).channel
        ≡ some (stopped row e)
  unfolding halt_synchronization halt_channel append_audit
  halt_synchronization-row channel_id e now db row found running =
      ground
        (arith, get-insert channel_id channel_id (stopped row e) db.channel, eq_refl channel_id)

  -- A halted channel refuses every fetch and stays as it is.
  pub halted_refuses :
      {T : Type 0} (adapter : Transport T) (t : T) (channel_id : String) (limit : ℕ) (now : String)
      (db : Database) (row : ChannelRecord) (reason : String)
      → get channel_id db.channel ≡ some row
      → row.halted_reason ≡ some reason
      → fetch_once describe describe_transport adapter t channel_id limit now db
        ≡ (err (synchronization_halted reason), db)
  unfolding fetch_once
  halted_refuses adapter t channel_id limit now db row reason found halted =
      ap
        (λ opened. try_then opened db λ channel.
          process_page describe describe_transport channel_id channel.sync_cursor now db
            (read_page describe describe_transport (adapter.fetch channel.sync_cursor limit t)))
        refused
    where
      refused :
          open_channel describe describe_transport channel_id db
          ≡ err (synchronization_halted reason)
      refused = rw found (rw halted refl)

  -- A step that fails leaves the channel stopped for the failure.
  abbrev Stops : String → ChannelRecord → Result CoreError FetchOutcome × Database → Type 0
  Stops channel_id row (result, db) =
      (e : CoreError) → result ≡ err e → get channel_id db.channel ≡ some (stopped row e)

  halted-Stops :
      (channel_id : String) (x : CoreError) (now : String) (db : Database) (row : ChannelRecord)
      → get channel_id db.channel ≡ some row
      → row.halted_reason ≡ none
      → Stops channel_id row
          (err x, halt_synchronization describe describe_transport channel_id x now db)
  halted-Stops channel_id x now db row found running e h =
      halt_synchronization-row channel_id x now db row found running
      ∙ ap (λ y. some (stopped row y)) (ground arith)

  process_page-Stops :
      (channel_id : String) (cursor : Option String) (now : String) (db : Database)
      (row : ChannelRecord) (fetched : Result TransportError FetchPage)
      → get channel_id db.channel ≡ some row
      → row.halted_reason ≡ none
      → Stops channel_id row
          (process_page describe describe_transport channel_id cursor now db fetched)
  process_page-Stops channel_id cursor now db row (err error) found running =
      halted-Stops channel_id (transport (describe_transport error)) now db row found running
  process_page-Stops channel_id cursor now db row (ok page) found running =
      checked (verify_chain cursor page.publications)
    where
      checked :
          (r : Result CoreError (Unit {0}))
          → Stops channel_id row
              (process_checked describe describe_transport channel_id page.publications now db r)
      checked (err x) e h = halted-Stops channel_id x now db row found running e h
      checked (ok u) e h = ground (
        arith,
        process-row describe describe_transport channel_id page.publications
            (record {
              publications = length page.publications;
              control_objects = 0;
              message_objects = 0;
              cursor = none;
            })
            db row found,
      )

  -- Any fetch on a registered, running channel that fails, for whatever the transport did, stops
  -- the channel: its cursor stays where it was, and every later fetch, from any transport, is
  -- refused for that first failure.
  pub fetch_failure_halts :
      {T S : Type 0} (adapter : Transport T) (t : T) (later : Transport S) (s : S)
      (channel_id : String) (limit limit' : ℕ) (now now' : String) (db : Database)
      (row : ChannelRecord) (e : CoreError)
      → get channel_id db.channel ≡ some row
      → row.halted_reason ≡ none
      → let (result, db') =
          fetch_once describe describe_transport adapter t channel_id limit now db in
        result ≡ err e
        → (get channel_id db'.channel
            ≡ some (record { sync_cursor = row.sync_cursor; halted_reason = some (describe e) }))
          × (fetch_once describe describe_transport later s channel_id limit' now' db'
              ≡ (err (synchronization_halted (describe e)), db'))
  fetch_failure_halts adapter t later s channel_id limit limit' now now' db row e found running
        failed =
      (
        after,
        halted_refuses later s channel_id limit' now' db' (stopped row e) (describe e) after refl,
      )
    where
      db' : Database
      db' = (fetch_once describe describe_transport adapter t channel_id limit now db).1

      after : get channel_id db'.channel ≡ some (stopped row e)
      after =
          subst (Stops channel_id row)
            (sym (
              fetch_once-page describe describe_transport adapter t channel_id limit now db row
                found running))
            (process_page-Stops channel_id row.sync_cursor now db row
              (read_page describe describe_transport (adapter.fetch row.sync_cursor limit t)) found
              running)
            e failed
