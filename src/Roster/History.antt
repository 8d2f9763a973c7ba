-- ===== src/Roster/History.antt =====
-- Past epochs are settled: no later entry changes who was authorized in them (PRD section 17.5).
use herdr_remote_channel.Prelude.{
  ℕ, ◌+◌, ◌≤◌, String, ◌≡◌, refl, sym, ◌∙◌, ap, inl, inr, true, false, none, some, List, [], ◌∷◌,
  All, arith, eq_iff, Option-cases,
}
use herdr_remote_channel.Prelude.BTreeMap.{BTreeMap, get, insert, get-insert, get-map_values}
use herdr_remote_channel.Errors.{ok}
use herdr_remote_channel.Protocol.Identity.{DeviceDescriptor}
use herdr_remote_channel.Protocol.Control.{DeviceCertificate}
use herdr_remote_channel.Crypto.{Primitives}
use herdr_remote_channel.Roster.State.{
  revoked, is_active_status, was_active_in, active_at, RosterDevice, Roster,
}
use herdr_remote_channel.Roster.Admission.{device_of, insert_device, insert_devices}
use herdr_remote_channel.Roster.Apply.{revoke_all}
use herdr_remote_channel.Roster.Certified.{descriptor_hash, Certifies}
use herdr_remote_channel.Roster.Invariant.{IsWellFormed}

-- The two tables answer alike for every device in epoch `e`.
abbrev pub SamePast : ℕ → BTreeMap RosterDevice → BTreeMap RosterDevice → Type 0
SamePast e ds ds' = (k : String) → active_at e (get k ds') ≡ active_at e (get k ds)

-- No two descriptors have the same identifier: what SHA-256 and the canonical encoding promise.
abbrev pub CollisionFree : Primitives → Type 0
CollisionFree c =
    (x y : DeviceDescriptor) (k : String)
    → descriptor_hash c x ≡ ok k
    → descriptor_hash c y ≡ ok k
    → x ≡ y

pub insert_device-SamePast :
    (e epoch : ℕ) (x : DeviceCertificate) (ds : BTreeMap RosterDevice)
    → e ≤ epoch
    → active_at e (get x.payload.device_id ds) ≡ false
    → SamePast e ds (insert_device x (epoch + 1) ds)
unfolding insert_device was_active_in
insert_device-SamePast e epoch x ds le fresh k = ground (
  arith,
  get-insert x.payload.device_id k (device_of x (epoch + 1)) ds,
  eq_iff x.payload.device_id k,
)

-- The identifier is not authorized in epoch `e`.
abbrev pub Fresh : ℕ → BTreeMap RosterDevice → DeviceCertificate → Type 0
Fresh e ds x = active_at e (get x.payload.device_id ds) ≡ false

Fresh-later :
    (e : ℕ) (ds ds' : BTreeMap RosterDevice)
    → SamePast e ds ds'
    → (xs : List DeviceCertificate) → All (Fresh e ds) xs
    → All (Fresh e ds') xs
Fresh-later e ds ds' same [] h = tt
Fresh-later e ds ds' same (x ∷ xs) h =
    (same x.payload.device_id ∙ h.0, Fresh-later e ds ds' same xs h.1)

pub insert_devices-SamePast :
    (e epoch : ℕ) (xs : List DeviceCertificate) (ds : BTreeMap RosterDevice)
    → e ≤ epoch
    → All (Fresh e ds) xs
    → SamePast e ds (insert_devices xs (epoch + 1) ds)
unfolding insert_devices
insert_devices-SamePast e epoch [] ds le fresh k = refl
insert_devices-SamePast e epoch (x ∷ xs) ds le fresh k =
    let first = insert_device-SamePast e epoch x ds le fresh.0 in
    insert_devices-SamePast e epoch xs _ le (Fresh-later e ds _ first xs fresh.1) k ∙ first k

pub revoke-SamePast :
    (e epoch : ℕ) (k : String) (d : RosterDevice) (ds : BTreeMap RosterDevice)
    → e ≤ epoch
    → get k ds ≡ some d
    → is_active_status d.status ≡ true
    → SamePast e ds (insert k (record d { status = revoked (epoch + 1) }) ds)
unfolding was_active_in
revoke-SamePast e epoch k d ds le found live j =
    ground (arith, get-insert k j (record d { status = revoked (epoch + 1) }) ds, eq_iff k j)

pub revoke_all-SamePast :
    (e epoch : ℕ) (p : String) (ds : BTreeMap RosterDevice)
    → e ≤ epoch
    → SamePast e ds (revoke_all p (epoch + 1) ds)
unfolding revoke_all was_active_in
revoke_all-SamePast e epoch p ds le j = elim (Option-cases (get j ds)) [
  | inl absent ↦ rw (get-map_values, absent)
  | inr (d, found) ↦ rw (get-map_values, found) (ground arith)
]

module _ (c : Primitives) (unique : CollisionFree c) where
  -- A certificate of a principal that is no member names a device that the roster does not hold.
  pub certified-absent :
      (r : Roster) (p : String) (x : DeviceCertificate)
      → IsWellFormed c r
      → get p r.members ≡ none
      → Certifies c p x
      → get x.payload.device_id r.devices ≡ none
  certified-absent r p x v stranger certified =
      elim (Option-cases (get x.payload.device_id r.devices)) [
        | inl absent ↦ absent
        | inr (d, found) ↦
            let fits = v.devices x.payload.device_id d found in
            let same =
              ap (λ (y : DeviceDescriptor). y.principal_id)
                (unique fits.descriptor x.payload.descriptor x.payload.device_id fits.derived
                  certified.derived) in
            let owner : d.principal_id ≡ p = sym fits.names ∙ same ∙ certified.names in
            cc (fits.owned, ap (λ q. get q r.members) owner)
      ]

  pub certified-Fresh :
      (e : ℕ) (r : Roster) (p : String) (xs : List DeviceCertificate)
      → IsWellFormed c r
      → get p r.members ≡ none
      → All (Certifies c p) xs
      → All (Fresh e r.devices) xs
  certified-Fresh e r p [] v stranger certified = tt
  certified-Fresh e r p (x ∷ xs) v stranger certified = (
    rw (certified-absent r p x v stranger certified.0),
    certified-Fresh e r p xs v stranger certified.1,
  )
