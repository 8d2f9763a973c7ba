-- ===== src/Roster/Settled.antt =====
-- `apply` leaves the past alone, whether it accepts the entry or refuses it (HRC-SEC-013).
use herdr_remote_channel.Prelude.{
  List, [], ◌∷◌, ℕ, ◌+◌, ◌≤◌, String, ◌≡◌, refl, ◌∙◌, inl, inr, false, arith,
}
use herdr_remote_channel.Prelude.BTreeMap.{get, contains_key, contains_key-get}
use herdr_remote_channel.Errors.{
  duplicate_member, duplicate_invite, unknown_member, ok, ok_or, reject_if, try_then_any,
  Result-cases,
}
use herdr_remote_channel.Protocol.Control.{
  DeviceCertificate, PrincipalMaterial, ControlOperation, create_invite, revoke_invite, add_member,
  remove_member, add_device, revoke_device, rotate_device_key, rotate_principal_key, update_policy,
  rollover_repository, advances_epoch,
}
use herdr_remote_channel.Crypto.{Primitives}
use herdr_remote_channel.Roster.State.{Roster, was_authorized_in}
use herdr_remote_channel.Roster.Admission.{
  check_certificates, check_admission, add_principal, admit_principal, admit_device, revocable,
}
use herdr_remote_channel.Roster.Admission
use herdr_remote_channel.Roster.Apply.{
  replay, Entry, expect_open, removable, apply_operation, check_entry, apply, expected_epoch,
}
use herdr_remote_channel.Roster.Certified.{check_certificates-Certifies, check_admission-Admissible}
use herdr_remote_channel.Roster.Invariant.{IsWellFormed}
use herdr_remote_channel.Roster.WellFormed.{revocable-found}
use herdr_remote_channel.Roster.Chain.{apply-Extends}
use herdr_remote_channel.Roster.Accepted.{apply-IsWellFormed, reject_if-passed}
use herdr_remote_channel.Roster.History.{
  SamePast, CollisionFree, insert_device-SamePast, insert_devices-SamePast, revoke-SamePast,
  revoke_all-SamePast, certified-Fresh,
}

-- From `r` to `s` nothing changes in epoch `e`.
abbrev pub Settles : ℕ → Roster → Roster → Type 0
Settles e r s = SamePast e r.devices s.devices

module _ (c : Primitives) where
  admit_device-Settles :
      (e epoch : ℕ) (x : DeviceCertificate) (r : Roster)
      → e ≤ epoch
      → Settles e r (admit_device c x (epoch + 1) r).1
  unfolding admit_device
  admit_device-Settles e epoch x r le =
      try_then_any (Settles e r) (check_admission c x r) r _ (λ k. refl)
        λ _ passed.
          insert_device-SamePast e epoch x r.devices le
            (rw (check_admission-Admissible c x r passed).is_new)

  revoke_device-Settles :
      (e epoch : ℕ) (k : String) (r : Roster)
      → e ≤ epoch
      → Settles e r (Admission.revoke_device k (epoch + 1) r).1
  unfolding Admission.revoke_device
  revoke_device-Settles e epoch k r le =
      try_then_any (Settles e r) (revocable k r) r _ (λ k. refl)
        λ d found.
          let (here, live) = revocable-found c k r d found in
          revoke-SamePast e epoch k d r.devices le here live

module _ (c : Primitives) (unique : CollisionFree c) (e : ℕ) (r : Roster) (v : IsWellFormed c r)
    (le : e ≤ r.epoch) where
  add_principal-Settles :
      (p : PrincipalMaterial)
      → contains_key p.principal_id r.members ≡ false
      → check_certificates c p.devices p ≡ ok tt
      → Settles e r (add_principal p false (r.epoch + 1) r)
  unfolding add_principal
  add_principal-Settles p fresh checked = insert_devices-SamePast e r.epoch p.devices r.devices le (
      certified-Fresh c unique e r p.principal_id p.devices v
        (ground (arith, contains_key-get p.principal_id r.members))
        (check_certificates-Certifies c p.devices p checked))

  apply_operation-Settles :
      (op : ControlOperation) → Settles e r (apply_operation c op (expected_epoch r op) r).1
  unfolding apply_operation advances_epoch admit_principal
  apply_operation-Settles (add_member i p) =
      try_then_any (Settles e r) (expect_open i (get i r.invites)) r _ (λ k. refl)
        λ _ _.
          try_then_any (Settles e r)
            (reject_if (contains_key p.principal_id r.members) (duplicate_member p.principal_id)) r
            _ (λ k. refl)
            λ _ fresh. elim (Result-cases (check_certificates c p.devices p)) [
              | inl (_, passed) ↦ rw passed (
                  add_principal-Settles p
                    (reject_if-passed _ (duplicate_member p.principal_id) fresh) passed)
              | inr (_, refused) ↦ rw refused λ k. refl
            ]
  apply_operation-Settles (remove_member p) =
      try_then_any (Settles e r) (removable p r) r _ (λ k. refl)
        λ m _. revoke_all-SamePast e r.epoch p r.devices le
  apply_operation-Settles (add_device x) = admit_device-Settles c e r.epoch x r le
  apply_operation-Settles (revoke_device k) = revoke_device-Settles c e r.epoch k r le
  apply_operation-Settles (rotate_device_key old x) =
      let (done, r') = Admission.revoke_device old (r.epoch + 1) r in
      let first = revoke_device-Settles c e r.epoch old r le in
      try_then_any (Settles e r) done r' _ first
        λ _ _ k. admit_device-Settles c e r.epoch x r' le k ∙ first k
  apply_operation-Settles (rotate_principal_key p key) =
      try_then_any (Settles e r) (ok_or (get p r.members) (unknown_member p)) r _ (λ k. refl)
        λ m _ k. refl
  apply_operation-Settles (create_invite i until) =
      try_then_any (Settles e r) (reject_if (contains_key i r.invites) (duplicate_invite i)) r _
        (λ k. refl) λ _ _ k. refl
  apply_operation-Settles (revoke_invite i) =
      try_then_any (Settles e r) (expect_open i (get i r.invites)) r _ (λ k. refl) λ _ _ k. refl
  apply_operation-Settles (update_policy _) = λ k. refl
  apply_operation-Settles (rollover_repository _) = λ k. refl

  -- Whether `apply` accepts an entry or refuses it, every device's authorization in an epoch up to
  -- the current one stays as it was, in a well-formed roster and with collision-free identifiers.
  pub was_authorized_in-apply :
      (entry : Entry) (k : String)
      → was_authorized_in (apply c r entry).1 k e ≡ was_authorized_in r k e
  unfolding apply was_authorized_in
  was_authorized_in-apply entry =
      let op = entry.payload.operation in
      let (done, r') = apply_operation c op (expected_epoch r op) r in
      try_then_any (Settles e r) (check_entry c r entry) r _ (λ k. refl)
        λ head _.
          try_then_any (Settles e r) done r' _ (apply_operation-Settles op)
            λ _ _. apply_operation-Settles op

module _ (c : Primitives) (unique : CollisionFree c) where
  -- A replay, whether it reaches the end of the log or stops at a refused entry, changes no
  -- device's authorization in an epoch up to the roster's, in a well-formed roster and with
  -- collision-free device identifiers.
  pub was_authorized_in-replay :
      (e : ℕ) (r : Roster) (entries : List Entry) (k : String)
      → IsWellFormed c r
      → e ≤ r.epoch
      → was_authorized_in (replay c r entries).1 k e ≡ was_authorized_in r k e
  unfolding replay advances_epoch
  was_authorized_in-replay e r [] k v le = refl
  was_authorized_in-replay e r (entry ∷ rest) k v le =
      let (done, r') = apply c r entry in
      let first = was_authorized_in-apply c unique e r v le entry k in
      try_then_any (λ s. was_authorized_in s k e ≡ was_authorized_in r k e) done r' _ first
        λ _ accepted.
          was_authorized_in-replay e r' rest k (apply-IsWellFormed c r entry v accepted)
            (ground (arith, apply-Extends c r entry accepted))
          ∙ first
