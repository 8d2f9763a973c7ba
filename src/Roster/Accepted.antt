-- ===== src/Roster/Accepted.antt =====
-- Every accepted entry keeps the invariant of the roster, and genesis establishes it.
use mathlib.Core.Path.{subst}
use herdr_remote_channel.Prelude.{
  ℕ, ◌+◌, String, ◌≡◌, refl, sym, inl, inr, true, false, none, some, List, [], ◌∷◌, arith,
}
use herdr_remote_channel.Prelude.BTreeMap.{
  get, insert, contains_key, contains_key-get, Every-insert,
}
use herdr_remote_channel.Errors.{
  CoreError, duplicate_invite, duplicate_member, unknown_member, ok, ok_or, reject_if, try_then,
  try_then_ok, Result, Result-cases,
}
use herdr_remote_channel.Protocol.Signed.{SignedObject}
use herdr_remote_channel.Protocol.Control.{
  GenesisPayload, PrincipalMaterial, ControlOperation, create_invite, revoke_invite, add_member,
  remove_member, add_device, revoke_device, rotate_device_key, rotate_principal_key, update_policy,
  rollover_repository, advances_epoch,
}
use herdr_remote_channel.Crypto.{Primitives, canonical_sha256_hex}
use herdr_remote_channel.Roster.State.{RosterMember, Roster, consumed}
use herdr_remote_channel.Roster.Admission.{
  check_certificates, add_principal, admit_principal, admit_device,
}
use herdr_remote_channel.Roster.Admission
use herdr_remote_channel.Roster.Apply.{
  Entry, expect_open, removable, apply_operation, check_entry, apply, replay, expected_epoch,
  from_genesis, no_members,
}
use herdr_remote_channel.Roster.Invariant.{MemberFits, WellFormedAt, IsWellFormed}
use herdr_remote_channel.Roster.Preserves.{Keeps-insert_same, DeviceFits-later}
use herdr_remote_channel.Roster.Removal.{revoke_all-DeviceFits}
use herdr_remote_channel.Roster.WellFormed.{
  WellFormedAt-later, admit_device-WellFormedAt, revoke_device-WellFormedAt,
  add_principal-WellFormedAt,
}

-- A lookup that `ok_or` turns into a success.
pub ok_or-found {ℓ} : {A : Type ℓ} (o : _) (e : CoreError) {a : A} → ok_or o e ≡ ok a → o ≡ some a
ok_or-found none e h = cc
ok_or-found (some a) e h = cc

pub reject_if-passed : (b : _) (e : CoreError) → reject_if b e ≡ ok tt → b ≡ false
reject_if-passed true e h = cc
reject_if-passed false e h = refl

pub removable-found :
    (p : String) (r : Roster) (m : RosterMember)
    → removable p r ≡ ok m
    → (get p r.members ≡ some m) × (m.is_administrator ≡ false)
unfolding removable
removable-found p r m h = ground arith

module _ (c : Primitives) where
  -- The last steps of `AddMember`.
  abbrev enrol : String → PrincipalMaterial → ℕ → Roster → Result CoreError (Unit {0}) × Roster
  enrol i p e r =
      let (done, r') = admit_principal c p false e r in
      try_then done r'
        λ _. (ok tt, record r' { invites = insert i (consumed p.principal_id) r'.invites })

  enrol-WellFormedAt :
      (i : String) (p : PrincipalMaterial) (r : Roster)
      → IsWellFormed c r
      → contains_key p.principal_id r.members ≡ false
      → (enrol i p (r.epoch + 1) r).0 ≡ ok tt
      → WellFormedAt c (r.epoch + 1) (enrol i p (r.epoch + 1) r).1
  unfolding admit_principal
  enrol-WellFormedAt i p r v fresh = elim (Result-cases (check_certificates c p.devices p)) [
    | inl (_, passed) ↦
        let w =
          add_principal-WellFormedAt c p false r.epoch (r.epoch + 1) r (omega arith)
            (ground (arith, contains_key-get p.principal_id r.members)) passed v in
        rw passed λ _. record { devices = w.devices; members = w.members }
    | inr (_, refused) ↦ rw refused λ h. cc
  ]

  apply_operation-WellFormedAt :
      (op : ControlOperation) (r : Roster)
      → IsWellFormed c r
      → (apply_operation c op (expected_epoch r op) r).0 ≡ ok tt
      → WellFormedAt c (expected_epoch r op) (apply_operation c op (expected_epoch r op) r).1
  unfolding apply_operation advances_epoch admit_principal
  apply_operation-WellFormedAt (add_member i p) r v =
      let e = r.epoch + 1 in
      try_then_ok (WellFormedAt c e) _ r _ tt λ _ _.
        try_then_ok (WellFormedAt c e) _ r _ tt λ _ fresh.
          enrol-WellFormedAt i p r v (reject_if-passed _ (duplicate_member p.principal_id) fresh)
  apply_operation-WellFormedAt (remove_member p) r v =
      let e = r.epoch + 1 in
      try_then_ok (WellFormedAt c e) (removable p r) r _ tt λ m found _.
        let present = (removable-found p r m found).0 in
        record {
          devices = revoke_all-DeviceFits c r.members r.epoch p m present r.devices v.devices;
          members =
              Every-insert MemberFits p (record m { is_active = false }) r.members
                (v.members p m present) v.members;
        }
  apply_operation-WellFormedAt (add_device x) r v =
      admit_device-WellFormedAt c x (r.epoch + 1) r
        (WellFormedAt-later c r r.epoch (r.epoch + 1) (omega arith) v)
  apply_operation-WellFormedAt (revoke_device k) r v = revoke_device-WellFormedAt c k r v
  apply_operation-WellFormedAt (rotate_device_key k x) r v =
      let e = r.epoch + 1 in
      let (done, r') = Admission.revoke_device k e r in
      try_then_ok (WellFormedAt c e) done r' _ tt
        λ _ dropped. admit_device-WellFormedAt c x e r' (revoke_device-WellFormedAt c k r v dropped)
  apply_operation-WellFormedAt (rotate_principal_key p key) r v =
      let e = r.epoch + 1 in
      try_then_ok (WellFormedAt c e) _ r _ tt λ m found _.
        let present = ok_or-found (get p r.members) (unknown_member p) found in
        let m' : RosterMember = record m { principal_signing_key = key } in
        record {
          devices = λ k d here.
              DeviceFits-later c r.members (insert p m' r.members) r.epoch e
                (Keeps-insert_same p m' m r.members present refl) (omega arith) k d
                (v.devices k d here);
          members = Every-insert MemberFits p m' r.members (v.members p m present) v.members;
        }
  apply_operation-WellFormedAt (create_invite i until) r v =
      try_then_ok (WellFormedAt c r.epoch)
        (reject_if (contains_key i r.invites) (duplicate_invite i)) r _ tt
        λ _ _ _. record { devices = v.devices; members = v.members }
  apply_operation-WellFormedAt (revoke_invite i) r v =
      try_then_ok (WellFormedAt c r.epoch) (expect_open i (get i r.invites)) r _ tt
        λ _ _ _. record { devices = v.devices; members = v.members }
  apply_operation-WellFormedAt (update_policy _) r v = λ h. v
  apply_operation-WellFormedAt (rollover_repository _) r v = λ h. v

  -- An entry that `apply` accepts keeps the roster well formed.
  pub apply-IsWellFormed :
      (r : Roster) (entry : Entry)
      → IsWellFormed c r
      → (apply c r entry).0 ≡ ok tt
      → IsWellFormed c (apply c r entry).1
  unfolding apply
  apply-IsWellFormed r entry v =
      let op = entry.payload.operation in
      let (done, r') = apply_operation c op (expected_epoch r op) r in
      try_then_ok (IsWellFormed c) (check_entry c r entry) r _ tt λ head _.
        try_then_ok (IsWellFormed c) done r' _ tt λ _ applied _.
          let w = apply_operation-WellFormedAt op r v applied in
          record { devices = w.devices; members = w.members }

  -- A log that replays to the end from a well-formed roster ends in a well-formed roster.
  pub replay-IsWellFormed :
      (r : Roster) (entries : List Entry)
      → IsWellFormed c r
      → (replay c r entries).0 ≡ ok tt
      → IsWellFormed c (replay c r entries).1
  unfolding replay
  replay-IsWellFormed r [] v h = v
  replay-IsWellFormed r (entry ∷ rest) v h =
      let (done, r') = apply c r entry in
      try_then_ok (IsWellFormed c) done r' _ tt
        (λ _ accepted. replay-IsWellFormed r' rest (apply-IsWellFormed r entry v accepted)) h

  no_members-WellFormedAt : (id : String) → WellFormedAt c 0 (no_members id)
  unfolding get
  no_members-WellFormedAt id = record { devices = λ k d found. cc; members = λ k m found. cc }

  pub record Founded (genesis : SignedObject GenesisPayload) (r : Roster) : Type 0 where
    pub id : String
    pub hashed : canonical_sha256_hex c (c.encode_genesis genesis.payload) ≡ ok id
    pub checked :
        check_certificates c genesis.payload.initial_admin.devices genesis.payload.initial_admin
        ≡ ok tt
    pub built : r ≡ add_principal genesis.payload.initial_admin true 0 (no_members id)

  pub from_genesis-Founded :
      (genesis : SignedObject GenesisPayload) (r : Roster)
      → from_genesis c genesis ≡ ok r
      → Founded genesis r
  unfolding from_genesis admit_principal
  from_genesis-Founded genesis r h =
      elim (Result-cases (canonical_sha256_hex c (c.encode_genesis genesis.payload))) [
        | inl (id, e) ↦ record { id = id; hashed = e; checked = ground arith; built = ground arith }
        | inr (_, e) ↦ ground arith
      ]

  -- The roster of a genesis object that `from_genesis` accepts is well formed.
  pub from_genesis-IsWellFormed :
      (genesis : SignedObject GenesisPayload) (r : Roster)
      → from_genesis c genesis ≡ ok r
      → IsWellFormed c r
  unfolding add_principal get
  from_genesis-IsWellFormed genesis r h =
      let f = from_genesis-Founded genesis r h in
      let admin = genesis.payload.initial_admin in
      subst (IsWellFormed c) (sym f.built) (
        add_principal-WellFormedAt c admin true 0 0 (no_members f.id) (omega arith) refl f.checked
          (no_members-WellFormedAt f.id))
