-- ===== src/Roster/State.antt =====
-- crates/hrc-core/src/roster.rs: the roster, its devices, members and invites, and the queries.
use herdr_remote_channel.Prelude.{
  ℕ, String, Bool, true, false, Option, none, some, List, [], ◌∷◌, ltb, str_lt, if◌then◌else◌,
}
use herdr_remote_channel.Prelude.BTreeMap.{BTreeMap, get, values}

pub data DeviceStatus : Type 0 where
  active : DeviceStatus
  revoked : (epoch : ℕ) → DeviceStatus

abbrev pub is_active_status : DeviceStatus → Bool
is_active_status active = true
is_active_status (revoked _) = false

pub record RosterDevice : Type 0 where
  pub device_id : String
  pub principal_id : String
  pub encryption_recipient : String
  pub signing_key : String
  pub added_in_epoch : ℕ
  pub status : DeviceStatus

abbrev pub before_revocation : DeviceStatus → ℕ → Bool
before_revocation active epoch = true
before_revocation (revoked revoked_epoch) epoch = ltb epoch revoked_epoch

unfoldable pub was_active_in : RosterDevice → ℕ → Bool
was_active_in device epoch =
    if ltb epoch device.added_in_epoch then false else before_revocation device.status epoch

pub record RosterMember : Type 0 where
  pub principal_id : String
  pub principal_signing_key : String
  pub is_administrator : Bool
  pub is_active : Bool

pub data InviteState : Type 0 where
  open_until : (expires_at : String) → InviteState
  consumed : (principal_id : String) → InviteState
  invite_is_revoked : InviteState

unfoldable pub is_open_at : InviteState → String → Bool
is_open_at (open_until expires_at) now = str_lt now expires_at
is_open_at (consumed _) now = false
is_open_at invite_is_revoked now = false

pub record Roster : Type 0 where
  pub channel_id : String
  pub epoch : ℕ
  pub sequence : ℕ
  pub head_hash : String
  pub members : BTreeMap RosterMember
  pub devices : BTreeMap RosterDevice
  pub invites : BTreeMap InviteState

abbrev pub active_only : List RosterDevice → List RosterDevice
active_only [] = []
active_only (d ∷ ds) =
    let rest = active_only ds in if is_active_status d.status then d ∷ rest else rest

unfoldable pub active_devices : Roster → List RosterDevice
active_devices r = active_only (values r.devices)

abbrev pub active_at : ℕ → Option RosterDevice → Bool
active_at epoch none = false
active_at epoch (some d) = was_active_in d epoch

-- HRC-SEC-013: whether a device was authorized to act during `epoch`.
unfoldable pub was_authorized_in : Roster → String → ℕ → Bool
was_authorized_in r device_id epoch = active_at epoch (get device_id r.devices)
