-- ===== src/Roster/Invariant.antt =====
-- The invariant of a replayed roster, kept by every accepted entry of the control log.
use herdr_remote_channel.Prelude.{ℕ, ◌≤◌, ◌<◌, String, ◌≡◌, true, some}
use herdr_remote_channel.Prelude.BTreeMap.{BTreeMap, get, Every}
use herdr_remote_channel.Errors.{ok}
use herdr_remote_channel.Protocol.Identity.{DeviceDescriptor}
use herdr_remote_channel.Crypto.{Primitives}
use herdr_remote_channel.Roster.State.{
  DeviceStatus, active, revoked, is_active_status, RosterDevice, RosterMember, Roster,
}
use herdr_remote_channel.Roster.Certified.{descriptor_hash}

-- A revocation lies after the device's admission and not in a later epoch than `epoch`.
abbrev pub Ends : ℕ → ℕ → DeviceStatus → Type 0
Ends added epoch active = Unit
Ends added epoch (revoked e) = (added < e) × (e ≤ epoch)

abbrev pub MemberFits : String → RosterMember → Type 0
MemberFits k m = m.principal_id ≡ k

module _ (c : Primitives) where
  -- A device record is stored under the identifier that its descriptor hashes to, it belongs to a
  -- member, and it is active only while that member is.
  pub record DeviceFits (members : BTreeMap RosterMember) (epoch : ℕ) (k : String)
      (d : RosterDevice) : Type 0 where
    pub named : d.device_id ≡ k
    pub descriptor : DeviceDescriptor
    pub derived : descriptor_hash c descriptor ≡ ok k
    pub names : descriptor.principal_id ≡ d.principal_id
    pub owner : RosterMember
    pub owned : get d.principal_id members ≡ some owner
    pub held : is_active_status d.status ≡ true → owner.is_active ≡ true
    pub added : d.added_in_epoch ≤ epoch
    pub ends : Ends d.added_in_epoch epoch d.status

  pub record WellFormedAt (epoch : ℕ) (r : Roster) : Type 0 where
    pub devices : Every (DeviceFits r.members epoch) r.devices
    pub members : Every MemberFits r.members

  abbrev pub IsWellFormed : Roster → Type 0
  IsWellFormed r = WellFormedAt r.epoch r
