-- ===== src/Roster/Invites.antt =====
-- An invite admits at most one principal (PRD section 15.1).
use mathlib.Core.Path.{subst}
use herdr_remote_channel.Prelude.{
  ℕ, ◌+◌, ◌≤◌, String, ◌≡◌, refl, sym, ◌∙◌, inl, inr, Bool, true, false, Option, none, some, List,
  [], ◌∷◌, arith, str_eq, eq_iff, if◌then◌else◌,
}
use herdr_remote_channel.Prelude.BTreeMap.{BTreeMap, get, get-insert, contains_key-get}
use herdr_remote_channel.Errors.{unknown_member, ok, ok_or, try_then_any, try_then_ok, Result-cases}
use herdr_remote_channel.Protocol.Control.{
  ControlOperation, create_invite, revoke_invite, add_member, remove_member, add_device,
  revoke_device, rotate_device_key, rotate_principal_key, update_policy, rollover_repository,
}
use herdr_remote_channel.Crypto.{Primitives}
use herdr_remote_channel.Roster.State.{InviteState, open_until, consumed, invite_is_revoked, Roster}
use herdr_remote_channel.Roster.Admission.{
  check_certificates, check_admission, admit_principal, admit_device, revocable, add_principal,
}
use herdr_remote_channel.Roster.Admission
use herdr_remote_channel.Roster.Apply.{
  Entry, expect_open, removable, apply_operation, apply, replay, expected_epoch,
}
use herdr_remote_channel.Roster.Authority.{apply-Accepts}

abbrev pub is_spent : Option InviteState → Bool
is_spent none = false
is_spent (some (open_until _)) = false
is_spent (some (consumed _)) = true
is_spent (some invite_is_revoked) = true

-- How many of the entries admit a member under the invite.
abbrev pub admits : String → ControlOperation → ℕ
admits i (add_member j _) = if str_eq j i then 1 else 0
admits i _ = 0

abbrev pub admissions : String → List Entry → ℕ
admissions i [] = 0
admissions i (e ∷ es) = admits i e.payload.operation + admissions i es

abbrev pub is_spent_in : String → BTreeMap InviteState → Bool
is_spent_in i m = is_spent (get i m)

-- What an accepted operation says of an invite: it admits under it only while it is open, and then
-- spends it; a spent invite stays spent.
abbrev pub Spends : String → ControlOperation → BTreeMap InviteState → BTreeMap InviteState → Type 0
Spends i op r s =
    (admits i op ≤ 1)
    × (is_spent_in i r ≡ true → (admits i op ≡ 0) × (is_spent_in i s ≡ true))
    × (admits i op ≡ 1 → is_spent_in i s ≡ true)

module _ (c : Primitives) (i : String) where
  same-Spends :
      (op : ControlOperation) (m n : BTreeMap InviteState)
      → admits i op ≡ 0
      → n ≡ m
      → Spends i op m n
  same-Spends op m n none_admitted same =
      (omega arith, λ spent. (none_admitted, rw same spent), λ h. absurd (omega arith))

  admit_device-invites : (x : _) (e : ℕ) (r : Roster) → (admit_device c x e r).1.invites ≡ r.invites
  unfolding admit_device
  admit_device-invites x e r =
      try_then_any (λ s. s.invites ≡ r.invites) (check_admission c x r) r _ refl λ _ _. refl

  revoke_device-invites :
      (k : String) (e : ℕ) (r : Roster) → (Admission.revoke_device k e r).1.invites ≡ r.invites
  unfolding Admission.revoke_device
  revoke_device-invites k e r =
      try_then_any (λ s. s.invites ≡ r.invites) (revocable k r) r _ refl λ _ _. refl

  apply_operation-Spends :
      (op : ControlOperation) (e : ℕ) (r : Roster)
      → (apply_operation c op e r).0 ≡ ok tt
      → Spends i op r.invites (apply_operation c op e r).1.invites
  unfolding apply_operation admit_principal add_principal expect_open
  apply_operation-Spends (add_member j p) e r h = ground (
    arith,
    Result-cases (check_certificates c p.devices p),
    get-insert j i (consumed p.principal_id) r.invites,
    eq_iff j i,
  )
  apply_operation-Spends (remove_member p) e r h =
      try_then_ok (λ s. Spends i (remove_member p) r.invites s.invites) (removable p r) r _ tt
        (λ _ _ _. same-Spends (remove_member p) r.invites _ refl refl) h
  apply_operation-Spends (add_device x) e r h =
      same-Spends (add_device x) r.invites _ refl (admit_device-invites x e r)
  apply_operation-Spends (revoke_device k) e r h =
      same-Spends (revoke_device k) r.invites _ refl (revoke_device-invites k e r)
  apply_operation-Spends (rotate_device_key old x) e r h =
      let (done, r') = Admission.revoke_device old e r in
      try_then_ok (λ s. Spends i (rotate_device_key old x) r.invites s.invites) done r' _ tt
        (λ _ _ _.
          same-Spends (rotate_device_key old x) r.invites _ refl
            (admit_device-invites x e r' ∙ revoke_device-invites old e r))
        h
  apply_operation-Spends (rotate_principal_key p key) e r h =
      try_then_ok (λ s. Spends i (rotate_principal_key p key) r.invites s.invites)
        (ok_or (get p r.members) (unknown_member p)) r _ tt
        (λ _ _ _. same-Spends (rotate_principal_key p key) r.invites _ refl refl) h
  apply_operation-Spends (create_invite j until) e r h =
      ground (
        arith,
        contains_key-get j r.invites,
        get-insert j i (open_until until) r.invites,
        eq_iff j i,
      )
  apply_operation-Spends (revoke_invite j) e r h =
      ground (arith, get-insert j i invite_is_revoked r.invites, eq_iff j i)
  apply_operation-Spends (update_policy x) e r h =
      same-Spends (update_policy x) r.invites r.invites refl refl
  apply_operation-Spends (rollover_repository x) e r h =
      same-Spends (rollover_repository x) r.invites r.invites refl refl

  pub apply-Spends :
      (r : Roster) (entry : Entry)
      → (apply c r entry).0 ≡ ok tt
      → Spends i entry.payload.operation r.invites (apply c r entry).1.invites
  apply-Spends r entry h =
      let a = apply-Accepts c r entry h in
      let op = entry.payload.operation in
      subst (λ s. Spends i op r.invites s.invites) (sym a.result)
        (apply_operation-Spends op (expected_epoch r op) r a.operated)

  -- In a log that replays to the end, at most one entry admits a member under a given invite, and
  -- none does under an invite that is consumed or revoked at the start.
  pub replay-admissions :
      (r : Roster) (entries : List Entry)
      → (replay c r entries).0 ≡ ok tt
      → admissions i entries ≤ (if is_spent_in i r.invites then 0 else 1)
  unfolding replay
  replay-admissions r [] h = ground arith
  replay-admissions r (entry ∷ rest) h = elim (Result-cases (apply c r entry).0) [
    | inl (_, accepted) ↦ ground (
      arith,
      apply-Spends r entry accepted,
      replay-admissions (apply c r entry).1 rest (ground arith),
    )
    | inr (_, refused) ↦ ground arith
  ]
