-- ===== src/Roster/Refusal.antt =====
-- What `apply` leaves behind when it refuses an entry.
use herdr_remote_channel.Prelude.{
  ℕ, ◌+◌, String, ◌≡◌, refl, Bool, true, false, some, arith, eq_refl,
}
use herdr_remote_channel.Prelude.BTreeMap.{get, insert, get-insert}
use herdr_remote_channel.Errors.{CoreError, ok, err, try_then, Result-cases}
use herdr_remote_channel.Protocol.Control.{
  DeviceCertificate, ControlOperation, add_member, rotate_device_key, advances_epoch,
}
use herdr_remote_channel.Crypto.{Primitives}
use herdr_remote_channel.Roster.State.{revoked, RosterDevice, Roster}
use herdr_remote_channel.Roster.Admission.{
  check_certificates, check_admission, admit_principal, admit_device, revocable,
}
use herdr_remote_channel.Roster.Admission
use herdr_remote_channel.Roster.Apply.{Entry, apply_operation, check_entry, apply, expected_epoch}

abbrev pub rotates : ControlOperation → Bool
rotates (rotate_device_key _ _) = true
rotates _ = false

module _ (c : Primitives) where
  apply_operation_refused :
      (op : ControlOperation) (e : ℕ) (r : Roster) {x : CoreError}
      → rotates op ≡ false
      → (apply_operation c op e r).0 ≡ err x
      → (apply_operation c op e r).1 ≡ r
  unfolding apply_operation admit_principal admit_device Admission.revoke_device
  apply_operation_refused (add_member i p) e r plain h =
      ground (arith, Result-cases (check_certificates c p.devices p))
  apply_operation_refused (rotate_device_key old x) e r plain h = cc
  apply_operation_refused _ e r plain h = ground arith

  -- An entry that `apply` refuses leaves the roster exactly as it was, unless it rotates a device
  -- key.
  pub refused_unchanged :
      (r : Roster) (entry : Entry) {x : CoreError}
      → rotates entry.payload.operation ≡ false
      → (apply c r entry).0 ≡ err x
      → (apply c r entry).1 ≡ r
  unfolding apply
  refused_unchanged r entry {x} plain h =
      let op = entry.payload.operation in
      ground (
        arith,
        check_entry c r entry,
        apply_operation_refused op (expected_epoch r op) r {x = x} plain,
      )

  -- The roster once the device's revocation is written.
  abbrev pub dropped : String → RosterDevice → ℕ → Roster → Roster
  dropped old d e r = record r { devices = insert old (record d { status = revoked e }) r.devices }

  rotation_refused :
      (old : String) (x : DeviceCertificate) (d : RosterDevice) (e : ℕ) (r : Roster)
      (error : CoreError)
      → revocable old r ≡ ok d
      → check_admission c x (dropped old d e r) ≡ err error
      → apply_operation c (rotate_device_key old x) e r ≡ (err error, dropped old d e r)
  unfolding apply_operation admit_device Admission.revoke_device
  rotation_refused old x d e r error found refused = rw (found, try_then) (rw (refused, try_then))

  -- A rotation whose checks pass up to the new certificate, and whose certificate is then refused,
  -- returns that error and yet leaves the previous device revoked, at an epoch that the roster has
  -- not reached.
  pub refused_rotation_revokes :
      (r : Roster) (entry : Entry) (old head : String) (x : DeviceCertificate) (d : RosterDevice)
      (error : CoreError)
      → entry.payload.operation ≡ rotate_device_key old x
      → check_entry c r entry ≡ ok head
      → revocable old r ≡ ok d
      → check_admission c x (dropped old d (r.epoch + 1) r) ≡ err error
      → ((apply c r entry).0 ≡ err error)
        × (get old (apply c r entry).1.devices ≡ some (record d { status = revoked (r.epoch + 1) }))
        × ((apply c r entry).1.epoch ≡ r.epoch)
  unfolding apply advances_epoch
  refused_rotation_revokes r entry old head x d error is_rotation checked found refused =
      let y = rotation_refused old x d (r.epoch + 1) r error found refused in
      rw (checked, try_then)
        (rw is_rotation (rw (y, try_then) (refl, simp (get-insert, eq_refl), refl)))
