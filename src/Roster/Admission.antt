-- ===== src/Roster/Admission.antt =====
-- crates/hrc-core/src/roster.rs: certificates, and the changes to the device table.
use herdr_remote_channel.Prelude.{
  ℕ, String, Bool, true, false, not, Option, none, some, List, [], ◌∷◌, str_eq,
}
use herdr_remote_channel.Prelude.BTreeMap.{BTreeMap, get, insert, contains_key}
use herdr_remote_channel.Errors.{
  CoreError, certificate_principal_mismatch, unknown_member, unknown_device, duplicate_device,
  already_revoked, protocol, crypto, Result, ok, map_err, ok_or, reject_if, try_then, ◌>>=◌, ◌>>◌,
}
use herdr_remote_channel.Protocol.Domain
use herdr_remote_channel.Protocol.Identity.{verify_device_id}
use herdr_remote_channel.Protocol.Control.{DeviceCertificate, PrincipalMaterial}
use herdr_remote_channel.Crypto.{Primitives, canonical_sha256_hex, from_base64url, verify_object}
use herdr_remote_channel.Roster.State.{
  active, revoked, is_active_status, RosterDevice, RosterMember, Roster,
}

module _ (c : Primitives) where
  unfoldable pub check_certificate :
      DeviceCertificate → String → PrincipalMaterial → Result CoreError (Unit {0})
  check_certificate certificate expected_principal material = do
    let descriptor = certificate.payload.descriptor
    map_err protocol
        (verify_device_id (λ d. canonical_sha256_hex c (c.encode_descriptor d)) certificate.payload)
    reject_if (not (str_eq descriptor.principal_id expected_principal))
        (certificate_principal_mismatch expected_principal descriptor.principal_id)
    key ← map_err crypto (from_base64url c "principalSigningKey" material.principal_signing_key)
    map_err crypto (verify_object c key Domain.device_certificate c.encode_certificate certificate)

  -- The loop that runs before anything is inserted.
  unfoldable pub check_certificates :
      List DeviceCertificate → PrincipalMaterial → Result CoreError (Unit {0})
  check_certificates [] material = ok tt
  check_certificates (certificate ∷ rest) material =
      check_certificate certificate material.principal_id material
      >> check_certificates rest material

-- The record that `insert_device` builds.
abbrev pub device_of : DeviceCertificate → ℕ → RosterDevice
device_of certificate epoch =
    let descriptor = certificate.payload.descriptor in
    record {
      device_id = certificate.payload.device_id;
      principal_id = descriptor.principal_id;
      encryption_recipient = descriptor.encryption_recipient;
      signing_key = descriptor.signing_key;
      added_in_epoch = epoch;
      status = active;
    }

unfoldable pub insert_device : DeviceCertificate → ℕ → BTreeMap RosterDevice → BTreeMap RosterDevice
insert_device certificate epoch = insert certificate.payload.device_id (device_of certificate epoch)

unfoldable pub insert_devices :
    List DeviceCertificate → ℕ → BTreeMap RosterDevice → BTreeMap RosterDevice
insert_devices [] epoch devices = devices
insert_devices (certificate ∷ rest) epoch devices =
    insert_devices rest epoch (insert_device certificate epoch devices)

abbrev pub member_of : PrincipalMaterial → Bool → RosterMember
member_of material is_administrator = record {
  principal_id = material.principal_id;
  principal_signing_key = material.principal_signing_key;
  is_administrator = is_administrator;
  is_active = true;
}

-- What `admit_principal` writes once every certificate is checked.
unfoldable pub add_principal : PrincipalMaterial → Bool → ℕ → Roster → Roster
add_principal material is_administrator epoch r = record r {
  members = insert material.principal_id (member_of material is_administrator) r.members;
  devices = insert_devices material.devices epoch r.devices;
}

abbrev pub only_active : Option RosterMember → Option RosterMember
only_active none = none
only_active (some m) = elim m.is_active [ true ↦ some m | false ↦ none ]

module _ (c : Primitives) where
  unfoldable pub admit_principal :
      PrincipalMaterial → Bool → ℕ → Roster → Result CoreError (Unit {0}) × Roster
  admit_principal material is_administrator epoch r =
      try_then (check_certificates c material.devices material) r
        λ _. (ok tt, add_principal material is_administrator epoch r)

  -- The checks of `admit_device`, before it inserts.
  unfoldable pub check_admission : DeviceCertificate → Roster → Result CoreError (Unit {0})
  check_admission certificate r = do
    let principal_id = certificate.payload.descriptor.principal_id
    member ← ok_or (only_active (get principal_id r.members)) (unknown_member principal_id)
    check_certificate c certificate principal_id (record {
      principal_id = member.principal_id;
      principal_signing_key = member.principal_signing_key;
      devices = [];
    })
    reject_if (contains_key certificate.payload.device_id r.devices)
        (duplicate_device certificate.payload.device_id)

  unfoldable pub admit_device :
      DeviceCertificate → ℕ → Roster → Result CoreError (Unit {0}) × Roster
  admit_device certificate epoch r =
      try_then (check_admission certificate r) r
        λ _. (ok tt, record r { devices = insert_device certificate epoch r.devices })

-- The device that `revoke_device` may change.
unfoldable pub revocable : String → Roster → Result CoreError RosterDevice
revocable device_id r = do
  device ← ok_or (get device_id r.devices) (unknown_device device_id)
  reject_if (not (is_active_status device.status)) (already_revoked device_id)
  ok device

unfoldable pub revoke_device : String → ℕ → Roster → Result CoreError (Unit {0}) × Roster
revoke_device device_id epoch r = try_then (revocable device_id r) r λ device. (
  ok tt,
  record r { devices = insert device_id (record device { status = revoked epoch }) r.devices },
)
