-- ===== src/Roster/Revoked.antt =====
-- A revocation is final: no entry of the log, accepted or refused, brings a device back.
use herdr_remote_channel.Prelude.{
  ℕ, ◌≤◌, String, ◌≡◌, false, none, some, List, [], ◌∷◌, All, arith, eq_iff,
}
use herdr_remote_channel.Prelude.BTreeMap.{
  BTreeMap, get, get-insert, contains_key, contains_key-get, get-map_values,
}
use herdr_remote_channel.Errors.{
  duplicate_member, duplicate_invite, unknown_member, ok_or, reject_if, try_then_any,
}
use herdr_remote_channel.Protocol.Control.{
  DeviceCertificate, PrincipalMaterial, ControlOperation, create_invite, revoke_invite, add_member,
  remove_member, add_device, revoke_device, rotate_device_key, rotate_principal_key, update_policy,
  rollover_repository,
}
use herdr_remote_channel.Crypto.{Primitives}
use herdr_remote_channel.Roster.State.{
  is_active_status, revoked, RosterDevice, Roster, was_active_in, was_authorized_in,
}
use herdr_remote_channel.Roster.Admission.{
  device_of, check_certificates, check_admission, insert_device, insert_devices, add_principal,
  admit_principal, admit_device, revocable,
}
use herdr_remote_channel.Roster.Admission
use herdr_remote_channel.Roster.Apply.{
  Entry, expect_open, removable, revoke_all, apply_operation, check_entry, apply, replay,
  expected_epoch,
}
use herdr_remote_channel.Roster.Certified.{
  Certifies, check_certificates-Certifies, check_admission-Admissible,
}
use herdr_remote_channel.Roster.Invariant.{IsWellFormed}
use herdr_remote_channel.Roster.WellFormed.{revocable-found}
use herdr_remote_channel.Roster.Accepted.{reject_if-passed, apply-IsWellFormed}
use herdr_remote_channel.Roster.History.{CollisionFree, certified-absent}

module _ (c : Primitives) (k : String) (d : RosterDevice)
    (gone : is_active_status d.status ≡ false) where
  abbrev Holds : Roster → Type 0
  Holds r = get k r.devices ≡ some d

  admit_device-Holds :
      (x : DeviceCertificate) (e : ℕ) (r : Roster) → Holds r → Holds (admit_device c x e r).1
  unfolding admit_device insert_device
  admit_device-Holds x e r h = try_then_any Holds (check_admission c x r) r _ h λ _ passed.
      let absent = (check_admission-Admissible c x r passed).is_new in
      ground (
        arith,
        absent,
        get-insert x.payload.device_id k (device_of x e) r.devices,
        eq_iff x.payload.device_id k,
      )

  revoke_device-Holds :
      (j : String) (e : ℕ) (r : Roster) → Holds r → Holds (Admission.revoke_device j e r).1
  unfolding Admission.revoke_device
  revoke_device-Holds j e r h = try_then_any Holds (revocable j r) r _ h λ y found. ground (
    arith,
    revocable-found c j r y found,
    get-insert j k (record y { status = revoked e }) r.devices,
    eq_iff j k,
  )

  insert_devices-Holds :
      (unique : CollisionFree c) (p : String) (r : Roster)
      → IsWellFormed c r
      → get p r.members ≡ none
      → Holds r
      → (e : ℕ) (xs : List DeviceCertificate) (ds : BTreeMap RosterDevice) → All (Certifies c p) xs
      → get k ds ≡ some d
      → get k (insert_devices xs e ds) ≡ some d
  unfolding insert_devices insert_device
  insert_devices-Holds unique p r v stranger held e [] ds certified h = h
  insert_devices-Holds unique p r v stranger held e (x ∷ xs) ds certified h =
      insert_devices-Holds unique p r v stranger held e xs _ certified.1 (
        ground (
          arith,
          held,
          certified-absent c unique r p x v stranger certified.0,
          get-insert x.payload.device_id k (device_of x e) ds,
          eq_iff x.payload.device_id k,
        ))

  revoke_all-Holds :
      (p : String) (e : ℕ) (r : Roster) → Holds r → get k (revoke_all p e r.devices) ≡ some d
  unfolding revoke_all
  revoke_all-Holds p e r h = rw (get-map_values, h) (ground arith)

  module _ (unique : CollisionFree c) (r : Roster) (v : IsWellFormed c r) (h : Holds r) where
    enrolled-Holds :
        (p : PrincipalMaterial) (e : ℕ)
        → contains_key p.principal_id r.members ≡ false
        → Holds (admit_principal c p false e r).1
    unfolding admit_principal add_principal
    enrolled-Holds p e fresh =
        try_then_any Holds (check_certificates c p.devices p) r _ h λ _ passed.
          insert_devices-Holds unique p.principal_id r v
            (ground (arith, contains_key-get p.principal_id r.members)) h e p.devices r.devices
            (check_certificates-Certifies c p.devices p passed) h

    apply_operation-Holds : (op : ControlOperation) (e : ℕ) → Holds (apply_operation c op e r).1
    unfolding apply_operation
    apply_operation-Holds (add_member i p) e =
        try_then_any Holds (expect_open i (get i r.invites)) r _ h λ _ _.
          try_then_any Holds
            (reject_if (contains_key p.principal_id r.members) (duplicate_member p.principal_id)) r
            _ h
            λ _ fresh.
              let (done, r') = admit_principal c p false e r in
              let still =
                enrolled-Holds p e (reject_if-passed _ (duplicate_member p.principal_id) fresh) in
              try_then_any Holds done r' _ still λ _ _. still
    apply_operation-Holds (remove_member p) e =
        try_then_any Holds (removable p r) r _ h λ m _. revoke_all-Holds p e r h
    apply_operation-Holds (add_device x) e = admit_device-Holds x e r h
    apply_operation-Holds (revoke_device j) e = revoke_device-Holds j e r h
    apply_operation-Holds (rotate_device_key old x) e =
        let (done, r') = Admission.revoke_device old e r in
        let first = revoke_device-Holds old e r h in
        try_then_any Holds done r' _ first λ _ _. admit_device-Holds x e r' first
    apply_operation-Holds (rotate_principal_key p key) e =
        try_then_any Holds (ok_or (get p r.members) (unknown_member p)) r _ h λ m _. h
    apply_operation-Holds (create_invite i until) e =
        try_then_any Holds (reject_if (contains_key i r.invites) (duplicate_invite i)) r _ h
          λ _ _. h
    apply_operation-Holds (revoke_invite i) e =
        try_then_any Holds (expect_open i (get i r.invites)) r _ h λ _ _. h
    apply_operation-Holds (update_policy _) e = h
    apply_operation-Holds (rollover_repository _) e = h

    apply-Holds : (entry : Entry) → Holds (apply c r entry).1
    unfolding apply
    apply-Holds entry =
        let op = entry.payload.operation in
        let e = expected_epoch r op in
        let (done, r') = apply_operation c op e r in
        let still = apply_operation-Holds op e in
        try_then_any Holds (check_entry c r entry) r _ h
          λ head _. try_then_any Holds done r' _ still λ _ _. still

  -- The record of a revoked device is the same after any entries, up to a refused one.
  pub replay-revoked :
      (unique : CollisionFree c) (r : Roster) (entries : List Entry)
      → IsWellFormed c r
      → get k r.devices ≡ some d
      → get k (replay c r entries).1.devices ≡ some d
  unfolding replay
  replay-revoked unique r [] v h = h
  replay-revoked unique r (entry ∷ rest) v h =
      let (done, r') = apply c r entry in
      let still = apply-Holds unique r v h entry in
      try_then_any Holds done r' _ still
        λ _ accepted. replay-revoked unique r' rest (apply-IsWellFormed c r entry v accepted) still

  -- A device that a well-formed roster shows as revoked in epoch `x` is authorized in no epoch from
  -- `x` on, after any further entries, up to and including a refused one.
  pub replay-was_authorized_in :
      (unique : CollisionFree c) (r : Roster) (entries : List Entry) (x e : ℕ)
      → IsWellFormed c r
      → get k r.devices ≡ some d
      → d.status ≡ revoked x
      → x ≤ e
      → was_authorized_in (replay c r entries).1 k e ≡ false
  unfolding was_authorized_in was_active_in
  replay-was_authorized_in unique r entries x e v h at_x le =
      ground (arith, replay-revoked unique r entries v h)
