-- ===== src/Roster/WellFormed.antt =====
-- `admit_device`, `revoke_device` and `admit_principal` keep the invariant of the roster.
use herdr_remote_channel.Prelude.{ℕ, ◌+◌, ◌≤◌, String, ◌≡◌, refl, true, none, some, arith, eq_refl}
use herdr_remote_channel.Prelude.BTreeMap.{get, insert, get-insert, Every-insert}
use herdr_remote_channel.Errors.{ok, try_then_ok}
use herdr_remote_channel.Protocol.Control.{DeviceCertificate, PrincipalMaterial}
use herdr_remote_channel.Crypto.{Primitives}
use herdr_remote_channel.Roster.State.{is_active_status, RosterDevice, Roster}
use herdr_remote_channel.Roster.Admission.{
  device_of, member_of, insert_device, insert_devices, add_principal, check_certificates,
  admit_principal, check_admission, admit_device, revocable,
}
use herdr_remote_channel.Roster.Admission
use herdr_remote_channel.Roster.Certified.{check_certificates-Certifies, check_admission-Admissible}
use herdr_remote_channel.Roster.Invariant.{DeviceFits, MemberFits, WellFormedAt, IsWellFormed}
use herdr_remote_channel.Roster.Preserves.{
  Keeps-insert_new, DeviceFits-later, device_of-DeviceFits, insert_devices-DeviceFits,
  revoked-DeviceFits,
}

module _ (c : Primitives) where
  pub WellFormedAt-later :
      (r : Roster) (e e' : ℕ) → e ≤ e' → WellFormedAt c e r → WellFormedAt c e' r
  WellFormedAt-later r e e' le v = record {
    devices = λ k d found.
        DeviceFits-later c r.members r.members e e' (λ p m h. (m, h, λ a. a)) le k d
          (v.devices k d found);
    members = v.members;
  }

  pub admit_device-WellFormedAt :
      (x : DeviceCertificate) (e : ℕ) (r : Roster)
      → WellFormedAt c e r
      → (admit_device c x e r).0 ≡ ok tt
      → WellFormedAt c e (admit_device c x e r).1
  unfolding admit_device insert_device
  admit_device-WellFormedAt x e r v =
      try_then_ok (WellFormedAt c e) (check_admission c x r) r _ tt λ _ passed _.
        let a = check_admission-Admissible c x r passed in
        record {
          devices =
              Every-insert (DeviceFits c r.members e) x.payload.device_id (device_of x e) r.devices
                (device_of-DeviceFits c r.members e x.payload.descriptor.principal_id a.owner x
                  a.found a.is_active a.certified)
                v.devices;
          members = v.members;
        }

  pub revocable-found :
      (k : String) (r : Roster) (d : RosterDevice)
      → revocable k r ≡ ok d
      → (get k r.devices ≡ some d) × (is_active_status d.status ≡ true)
  unfolding revocable
  revocable-found k r d h = ground arith

  pub revoke_device-WellFormedAt :
      (k : String) (r : Roster)
      → IsWellFormed c r
      → (Admission.revoke_device k (r.epoch + 1) r).0 ≡ ok tt
      → WellFormedAt c (r.epoch + 1) (Admission.revoke_device k (r.epoch + 1) r).1
  unfolding Admission.revoke_device
  revoke_device-WellFormedAt k r v =
      try_then_ok (WellFormedAt c (r.epoch + 1)) (revocable k r) r _ tt λ d found _.
        let w = WellFormedAt-later r r.epoch (r.epoch + 1) (omega arith) v in
        record {
          devices =
              Every-insert (DeviceFits c r.members (r.epoch + 1)) k _ r.devices
                (revoked-DeviceFits c r.members r.epoch k d
                  (v.devices k d (revocable-found k r d found).0))
                w.devices;
          members = v.members;
        }

  pub add_principal-WellFormedAt :
      (p : PrincipalMaterial) (admin : _) (e e' : ℕ) (r : Roster)
      → e ≤ e'
      → get p.principal_id r.members ≡ none
      → check_certificates c p.devices p ≡ ok tt
      → WellFormedAt c e r
      → WellFormedAt c e' (add_principal p admin e' r)
  unfolding add_principal
  add_principal-WellFormedAt p admin e e' r le absent checked v =
      let ms' = insert p.principal_id (member_of p admin) r.members in
      record {
        devices =
            insert_devices-DeviceFits c ms' e' p.principal_id (member_of p admin)
              (simp (get-insert, eq_refl)) refl p.devices r.devices
              (check_certificates-Certifies c p.devices p checked)
              (λ k d found.
                DeviceFits-later c r.members ms' e e'
                  (Keeps-insert_new p.principal_id (member_of p admin) r.members absent) le k d
                  (v.devices k d found));
        members =
            Every-insert MemberFits p.principal_id (member_of p admin) r.members refl v.members;
      }
