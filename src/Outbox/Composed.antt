-- ===== src/Outbox/Composed.antt =====
-- crates/hrc-storage/src/outbox.rs: when `compose_outgoing` succeeds, and what it leaves queued.
use herdr_remote_channel.Prelude.{String, false, ◌&&◌, ◌≡◌, str_eq}
use herdr_remote_channel.Outbox.{OutboxRow}

-- The message takes an identifier and a link that no row has.
abbrev pub IsNew : String → String → String → OutboxRow → Type 0
IsNew channel_id message_id chain_id row =
    (str_eq row.message_id message_id ≡ false)
    × ((str_eq row.channel_id channel_id && str_eq row.chain_id chain_id) ≡ false)
