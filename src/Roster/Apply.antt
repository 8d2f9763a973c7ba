-- ===== src/Roster/Apply.antt =====
-- crates/hrc-core/src/roster.rs: `from_genesis` and `apply`.
use herdr_remote_channel.Prelude.{
  ℕ, ◌+◌, String, true, false, not, ◌&&◌, ◌||◌, Option, none, some, List, [], ◌∷◌, str_eq, ◌==◌,
  if◌then◌else◌,
}
use herdr_remote_channel.Prelude.BTreeMap.{BTreeMap, get, insert, contains_key, map_values}
use herdr_remote_channel.Errors.{
  CoreError, wrong_channel, sequence_out_of_order, broken_chain, epoch_out_of_order,
  unauthorized_signer, revoked_signer, unknown_device, unknown_member, duplicate_member,
  cannot_remove_administrator, unknown_invite, duplicate_invite, invite_already_used,
  invite_revoked, protocol, crypto, Result, ok, err, map_err, ok_or, reject_if, try_then, ◌>>=◌,
  ◌>>◌,
}
use herdr_remote_channel.Protocol.Domain
use herdr_remote_channel.Protocol.Signed.{SignedObject}
use herdr_remote_channel.Protocol.Control.{
  GenesisPayload, ControlOperation, create_invite, revoke_invite, add_member, remove_member,
  add_device, revoke_device, rotate_device_key, rotate_principal_key, update_policy,
  rollover_repository, advances_epoch, ControlEntryPayload, validate_shape,
}
use herdr_remote_channel.Crypto.{Primitives, canonical_sha256_hex, from_base64url, verify_object}
use herdr_remote_channel.Roster.State.{
  revoked, is_active_status, was_active_in, RosterDevice, RosterMember, InviteState, open_until,
  consumed, invite_is_revoked, Roster,
}
use herdr_remote_channel.Roster.Admission
use herdr_remote_channel.Roster.Admission.{admit_principal, admit_device}

abbrev pub Entry : Type 0
Entry = SignedObject ControlEntryPayload

-- The match on the invite that `AddMember` and `RevokeInvite` share.
unfoldable pub expect_open : String → Option InviteState → Result CoreError (Unit {0})
expect_open invite_id (some (open_until _)) = ok tt
expect_open invite_id (some (consumed _)) = err (invite_already_used invite_id)
expect_open invite_id (some invite_is_revoked) = err (invite_revoked invite_id)
expect_open invite_id none = err (unknown_invite invite_id)

-- The loop over the devices in `RemoveMember`.
unfoldable pub revoke_all : String → ℕ → BTreeMap RosterDevice → BTreeMap RosterDevice
revoke_all principal_id epoch = map_values λ d.
    if str_eq d.principal_id principal_id && is_active_status d.status
    then record d { status = revoked epoch }
    else d

-- The member that `RemoveMember` may change.
unfoldable pub removable : String → Roster → Result CoreError RosterMember
removable principal_id r = do
  member ← ok_or (get principal_id r.members) (unknown_member principal_id)
  reject_if member.is_administrator cannot_remove_administrator
  ok member

module _ (c : Primitives) where
  unfoldable pub apply_operation :
      ControlOperation → ℕ → Roster → Result CoreError (Unit {0}) × Roster
  apply_operation (add_member invite_id member) epoch r =
      try_then (expect_open invite_id (get invite_id r.invites)) r λ _.
        try_then
          (reject_if (contains_key member.principal_id r.members)
            (duplicate_member member.principal_id))
          r
          λ _.
            let (done, r') = admit_principal c member false epoch r in
            try_then done r' λ _. (
              ok tt,
              record r' { invites = insert invite_id (consumed member.principal_id) r'.invites },
            )
  apply_operation (remove_member principal_id) epoch r =
      try_then (removable principal_id r) r λ member. (
        ok tt,
        record r {
          members = insert principal_id (record member { is_active = false }) r.members;
          devices = revoke_all principal_id epoch r.devices;
        },
      )
  apply_operation (add_device certificate) epoch r = admit_device c certificate epoch r
  apply_operation (revoke_device device_id) epoch r = Admission.revoke_device device_id epoch r
  apply_operation (rotate_device_key previous_device_id certificate) epoch r =
      let (done, r') = Admission.revoke_device previous_device_id epoch r in
      try_then done r' λ _. admit_device c certificate epoch r'
  apply_operation (rotate_principal_key principal_id principal_signing_key) epoch r =
      try_then (ok_or (get principal_id r.members) (unknown_member principal_id)) r λ member. (
        ok tt,
        record r {
          members =
              insert principal_id (record member { principal_signing_key = principal_signing_key })
                r.members;
        },
      )
  apply_operation (create_invite invite_id expires_at) epoch r =
      try_then (reject_if (contains_key invite_id r.invites) (duplicate_invite invite_id)) r
        λ _. (ok tt, record r { invites = insert invite_id (open_until expires_at) r.invites })
  apply_operation (revoke_invite invite_id) epoch r =
      try_then (expect_open invite_id (get invite_id r.invites)) r
        λ _. (ok tt, record r { invites = insert invite_id invite_is_revoked r.invites })
  apply_operation (update_policy _) epoch r = (ok tt, r)
  apply_operation (rollover_repository _) epoch r = (ok tt, r)

  unfoldable pub verify_signer_authority : Roster → Entry → Result CoreError (Unit {0})
  verify_signer_authority r entry = do
    device ← ok_or (get entry.signer.device_id r.devices) (unknown_device entry.signer.device_id)
    reject_if (not (str_eq device.principal_id entry.signer.principal_id))
        (unauthorized_signer entry.signer.principal_id)
    reject_if (not (was_active_in device r.epoch)) (revoked_signer device.device_id)
    member ← ok_or (get device.principal_id r.members) (unauthorized_signer device.principal_id)
    reject_if (not member.is_active || not member.is_administrator)
        (unauthorized_signer member.principal_id)
    key ← map_err crypto (from_base64url c "signingKey" device.signing_key)
    map_err crypto (verify_object c key Domain.control c.encode_entry entry)

  unfoldable pub entry_hash : ControlEntryPayload → Result CoreError String
  entry_hash payload = map_err protocol (canonical_sha256_hex c (c.encode_entry payload))

-- The roster that `from_genesis` starts from.
abbrev pub no_members : String → Roster
no_members channel_id = record {
  channel_id = channel_id;
  epoch = 0;
  sequence = 0;
  head_hash = channel_id;
  members = [];
  devices = [];
  invites = [];
}

abbrev pub expected_epoch : Roster → ControlOperation → ℕ
expected_epoch r operation = if advances_epoch operation then r.epoch + 1 else r.epoch

module _ (c : Primitives) where
  -- Every check of `apply` before `apply_operation`; the result is the next head.
  unfoldable pub check_entry : Roster → Entry → Result CoreError String
  check_entry r entry = do
    let payload = entry.payload
    map_err protocol (validate_shape payload)
    reject_if (not (str_eq payload.channel_id r.channel_id))
        (wrong_channel r.channel_id payload.channel_id)
    reject_if (not (payload.sequence == r.sequence + 1))
        (sequence_out_of_order (r.sequence + 1) payload.sequence)
    reject_if (not (str_eq payload.previous_hash r.head_hash))
        (broken_chain r.head_hash payload.previous_hash)
    reject_if (not (payload.epoch == expected_epoch r payload.operation))
        (epoch_out_of_order (expected_epoch r payload.operation) payload.epoch)
    verify_signer_authority c r entry
    entry_hash c payload

  -- The last assignments of `apply`.
  abbrev pub advance : Entry → String → Roster → Roster → Roster
  advance entry next_hash before r = record r {
    epoch = expected_epoch before entry.payload.operation;
    sequence = entry.payload.sequence;
    head_hash = next_hash;
  }

  unfoldable pub apply : Roster → Entry → Result CoreError (Unit {0}) × Roster
  apply r entry = try_then (check_entry r entry) r λ next_hash.
      let (done, r') =
        apply_operation c entry.payload.operation (expected_epoch r entry.payload.operation) r in
      try_then done r' λ _. (ok tt, advance entry next_hash r r')

  -- A reader's loop over the entries of the log: it stops at the first that is refused.
  unfoldable pub replay : Roster → List Entry → Result CoreError (Unit {0}) × Roster
  replay r [] = (ok tt, r)
  replay r (entry ∷ rest) = let (done, r') = apply r entry in try_then done r' λ _. replay r' rest

  unfoldable pub from_genesis : SignedObject GenesisPayload → Result CoreError Roster
  from_genesis genesis = do
    let payload = genesis.payload
    channel_id ← map_err protocol (canonical_sha256_hex c (c.encode_genesis payload))
    reject_if (not (str_eq genesis.signer.principal_id payload.initial_admin.principal_id))
        (unauthorized_signer genesis.signer.principal_id)
    let (done, r) = admit_principal c payload.initial_admin true 0 (no_members channel_id)
    done
    device ←
        ok_or (get genesis.signer.device_id r.devices) (unknown_device genesis.signer.device_id)
    key ← map_err crypto (from_base64url c "signingKey" device.signing_key)
    map_err crypto (verify_object c key Domain.genesis c.encode_genesis genesis)
    ok r
