-- ===== src/Roster/Authority.antt =====
-- Who signed an accepted entry, judged by the roster before it.
use herdr_remote_channel.Prelude.{
  ℕ, ◌+◌, String, ◌≡◌, inl, inr, true, some, List, arith, eq_iff, Option-cases,
}
use herdr_remote_channel.Prelude.BTreeMap.{get}
use herdr_remote_channel.Errors.{ok, Result-cases}
use herdr_remote_channel.Protocol.Domain
use herdr_remote_channel.Crypto.{Primitives, from_base64url, verify_object}
use herdr_remote_channel.Roster.State.{RosterDevice, RosterMember, Roster, was_active_in}
use herdr_remote_channel.Roster.Apply.{
  Entry, verify_signer_authority, entry_hash, check_entry, apply_operation, expected_epoch, advance,
  apply,
}

module _ (c : Primitives) where
  -- The signing device was active in the roster's epoch, it belongs to the principal that the
  -- envelope names, that principal is an active administrator, and the device's own key verifies
  -- the signature over the entry.
  pub record Authorized (r : Roster) (entry : Entry) : Type 0 where
    pub device : RosterDevice
    pub known : get entry.signer.device_id r.devices ≡ some device
    pub belongs : device.principal_id ≡ entry.signer.principal_id
    pub live : was_active_in device r.epoch ≡ true
    pub member : RosterMember
    pub enrolled : get device.principal_id r.members ≡ some member
    pub is_active : member.is_active ≡ true
    pub is_administrator : member.is_administrator ≡ true
    pub key : List ℕ
    pub decoded : from_base64url c "signingKey" device.signing_key ≡ ok key
    pub signed : verify_object c key Domain.control c.encode_entry entry ≡ ok tt

  verify_signer_authority-Authorized :
      (r : Roster) (entry : Entry) → verify_signer_authority c r entry ≡ ok tt → Authorized r entry
  unfolding verify_signer_authority
  verify_signer_authority-Authorized r entry h =
      elim (Option-cases (get entry.signer.device_id r.devices)) [
        | inl e ↦ ground arith
        | inr (d, e) ↦ elim (Option-cases (get d.principal_id r.members)) [
          | inl f ↦ ground arith
          | inr (m, f) ↦ elim (Result-cases (from_base64url c "signingKey" d.signing_key)) [
            | inr (_, g) ↦ ground arith
            | inl (key, g) ↦ record {
              device = d;
              known = e;
              belongs = ground (arith, eq_iff d.principal_id entry.signer.principal_id);
              live = ground arith;
              member = m;
              enrolled = f;
              is_active = ground arith;
              is_administrator = ground arith;
              key = key;
              decoded = g;
              signed = ground arith;
            }
          ]
        ]
      ]

  -- What `apply` did when it returned `Ok`.
  pub record Accepts (r : Roster) (entry : Entry) : Type 0 where
    pub head : String
    pub checked : check_entry c r entry ≡ ok head
    pub operated :
        (apply_operation c entry.payload.operation (expected_epoch r entry.payload.operation) r).0
        ≡ ok tt
    pub result :
        (apply c r entry).1
        ≡ advance c entry head r
            (apply_operation c entry.payload.operation
              (expected_epoch r entry.payload.operation)
              r).1

  pub apply-Accepts : (r : Roster) (entry : Entry) → (apply c r entry).0 ≡ ok tt → Accepts r entry
  unfolding apply
  apply-Accepts r entry h = elim (Result-cases (check_entry c r entry)) [
    | inl (head, e) ↦ record {
      head = head;
      checked = e;
      operated = ground arith;
      result = ground arith;
    }
    | inr (_, e) ↦ ground arith
  ]

  -- An entry that `apply` accepts was signed, under the control domain, by a device that was active
  -- before it and belongs to an active administrator.
  pub apply-Authorized :
      (r : Roster) (entry : Entry) → (apply c r entry).0 ≡ ok tt → Authorized r entry
  unfolding check_entry
  apply-Authorized r entry h =
      let a = apply-Accepts r entry h in
      verify_signer_authority-Authorized r entry (ground (arith, a.checked))

  -- The links that `check_entry` compares.
  pub record Linked (r : Roster) (entry : Entry) (head : String) : Type 0 where
    pub channel : entry.payload.channel_id ≡ r.channel_id
    pub sequence : entry.payload.sequence ≡ r.sequence + 1
    pub previous : entry.payload.previous_hash ≡ r.head_hash
    pub epoch : entry.payload.epoch ≡ expected_epoch r entry.payload.operation
    pub hashed : entry_hash c entry.payload ≡ ok head

  pub check_entry-Linked :
      (r : Roster) (entry : Entry) (head : String)
      → check_entry c r entry ≡ ok head
      → Linked r entry head
  unfolding check_entry
  check_entry-Linked r entry head h = record {
    channel = ground (arith, eq_iff entry.payload.channel_id r.channel_id);
    sequence = ground arith;
    previous = ground (arith, eq_iff entry.payload.previous_hash r.head_hash);
    epoch = ground arith;
    hashed = ground arith;
  }
