-- ===== src/Outbox/Rows.antt =====
-- crates/hrc-storage/src/outbox.rs: the updates and insertions that keep a published row.
use herdr_remote_channel.Prelude.{ℕ, String, Bool, true, ◌≡◌, ◌≢◌, inl, inr, arith, Bool-cases}
use herdr_remote_channel.Errors.{Result, ok, err, map_err, try_then_any}
use herdr_remote_channel.Storage.{published}
use herdr_remote_channel.Inbound.Queries.{any}
use herdr_remote_channel.Inbound.Run.{OnOk}
use herdr_remote_channel.Outbox.{OutboxRow, Tables}
use herdr_remote_channel.Outbox.Queries.{update_where}
use herdr_remote_channel.Outbox.Compose.{commit, outbox_clash, insert_outbox}
use herdr_remote_channel.Outbox.Reseal.{is_pending_at, is_behind}
use herdr_remote_channel.Outbox.Updates.{update_row, is_queueable, is_abandoned}
use herdr_remote_channel.Outbox.Evolves.{
  IsGiven, Evolves, same_tables, append-Grows, update_where-Evolves,
}

pub map_err-OnOk {ℓ κ η θ} :
    {E : Type ℓ} {F : Type κ} {A : Type η} (P : A → Type θ) (f : E → F) (r : Result E A)
    → OnOk P r
    → OnOk P (map_err f r)
map_err-OnOk P f (ok a) h = h
map_err-OnOk P f (err e) h = tt

-- What holds of the tables before and after a body that succeeds holds after its transaction.
pub commit_keeps {ℓ κ η} :
    {E : Type ℓ} {A : Type κ} (P : Tables → Type η) (t : Tables) (r : Result E (A × Tables))
    → P t
    → OnOk (λ x. P (x.1)) r
    → P (commit t r).1
commit_keeps P t (ok (a, after)) before h = h
commit_keeps P t (err e) before h = before

pub insert_outbox-Evolves :
    (row : OutboxRow) (t : Tables)
    → IsGiven t.device_sequence row
    → OnOk (Evolves t) (insert_outbox row t)
insert_outbox-Evolves row t given = elim (Bool-cases (any (outbox_clash row) t.outbox)) [
  | inl clash ↦ rw (clash) tt
  | inr free ↦ rw (free) (record {
    rows = append-Grows t.device_sequence row t.outbox given;
    numbers = λ c d. omega arith;
  })
]

-- The rows that an update looks for are not published.
abbrev pub Unpublished : (OutboxRow → Bool) → Type 0
Unpublished test = (x : OutboxRow) → test x ≡ true → x.state ≢ published

pub pending_at-Unpublished :
    (message_id : String) (epoch : ℕ) → Unpublished (is_pending_at message_id epoch)
pending_at-Unpublished message_id epoch x passes h = ground arith

pub behind-Unpublished :
    (channel_id device_id : String) (sequence : ℕ)
    → Unpublished (is_behind channel_id device_id sequence)
behind-Unpublished channel_id device_id sequence x passes h = ground arith

pub queueable-Unpublished : (message_id : String) → Unpublished (is_queueable message_id)
queueable-Unpublished message_id x passes h = ground arith

pub abandoned-Unpublished : (channel_id : String) → Unpublished (is_abandoned channel_id)
abandoned-Unpublished channel_id x passes h = ground arith

-- An update of other rows that leaves the chain alone keeps every row.
pub update-Evolves :
    (test : OutboxRow → Bool) (change : OutboxRow → OutboxRow) (t : Tables)
    → Unpublished test
    → ((x : OutboxRow)
        → ((change x).message_id ≡ x.message_id)
          × ((change x).channel_id ≡ x.channel_id)
          × ((change x).device_id ≡ x.device_id)
          × ((change x).device_sequence ≡ x.device_sequence)
          × ((change x).chain_id ≡ x.chain_id))
    → Evolves t (record t { outbox = update_where test change t.outbox })
update-Evolves test change t others same = update_where-Evolves test change t λ x passes. record {
  same_message = (same x).0;
  same_channel = (same x).1;
  same_device = (same x).2;
  same_sequence = (same x).3;
  same_chain = (same x).4;
  sealed = λ h. elim (others x passes h) [ ];
}

pub update_row-Evolves :
    (test : OutboxRow → Bool) (change : OutboxRow → OutboxRow) (message_id : String) (t : Tables)
    → Evolves t (record t { outbox = update_where test change t.outbox })
    → Evolves t ((update_row test change message_id t).1)
unfolding update_row
update_row-Evolves test change message_id t grown =
    try_then_any (Evolves t) _ t _ (same_tables t) λ a found. grown
