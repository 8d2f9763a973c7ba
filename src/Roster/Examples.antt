-- ===== src/Roster/Examples.antt =====
-- Tests of the roster, and its theorems at a concrete log.
use herdr_remote_channel.Prelude.{
  ℕ, ◌≤◌, String, ◌≡◌, refl, ◌⊎◌, Bool, true, false, some, List, [], ◌∷◌, arith, eq_iff, str_eq,
  ◌&&◌, ◌==◌, if◌then◌else◌,
}
use herdr_remote_channel.Prelude.BTreeMap.{get, insert, contains_key, map_values}
use herdr_remote_channel.Errors.{
  Result, CoreError, unknown_member, sequence_out_of_order, ok, err, canonicalization,
}
use herdr_remote_channel.Protocol.Domain
use herdr_remote_channel.Protocol.Signed.{signature_input, signature_input_separates}
use herdr_remote_channel.Protocol.Control.{
  ControlEntryPayload, validate_shape, advances_epoch, ControlOperation, create_invite,
  revoke_invite,
}
use herdr_remote_channel.Protocol.Identity.{DeviceDescriptor, verify_device_id}
use herdr_remote_channel.Protocol.Canonical.{bytes_of, expect_hex_digest}
use herdr_remote_channel.Crypto.{
  Primitives, verify_object, verify_payload, from_base64url, canonical_sha256_hex,
}
use herdr_remote_channel.Roster.State.{
  active, revoked, DeviceStatus, Roster, RosterDevice, was_active_in, was_authorized_in,
}
use herdr_remote_channel.Roster.Admission.{
  check_certificate, check_certificates, check_admission, insert_device, insert_devices,
  add_principal, admit_principal, admit_device, revocable, revoke_device,
}
use herdr_remote_channel.Roster.Apply.{
  Entry, from_genesis, apply, replay, no_members, expect_open, removable, revoke_all,
  apply_operation, verify_signer_authority, entry_hash, check_entry,
}
use herdr_remote_channel.Roster.Certified.{descriptor_hash}
use herdr_remote_channel.Roster.Invariant.{IsWellFormed}
use herdr_remote_channel.Roster.Accepted.{
  from_genesis-IsWellFormed, apply-IsWellFormed, replay-IsWellFormed,
}
use herdr_remote_channel.Roster.History.{CollisionFree}
use herdr_remote_channel.Roster.Settled.{was_authorized_in-replay}
use herdr_remote_channel.Roster.Revoked.{replay-was_authorized_in}
use herdr_remote_channel.Roster.Authority.{Authorized, apply-Authorized}
use herdr_remote_channel.Roster.Chain.{DistinctHashes, payloads, replay_same_head}
use herdr_remote_channel.Roster.Invites.{admissions, is_spent_in, replay-admissions}
use herdr_remote_channel.Roster.Refusal.{refused_unchanged, refused_rotation_revokes}
use herdr_remote_channel.Roster.Toy.{
  toy, digest, descriptor, is_of_sound, genesis, invite_bob, admit_bob, remove_bob, bad_rotation,
  certificate,
}

or_empty : Result CoreError Roster → Roster
or_empty (ok r) = r
or_empty (err _) = no_members ""

founded : Roster
unfolding or_empty get insert contains_key map_values signature_input validate_shape advances_epoch
    verify_device_id expect_hex_digest verify_object verify_payload from_base64url
    canonical_sha256_hex was_active_in was_authorized_in check_certificate check_certificates
    check_admission insert_device insert_devices add_principal admit_principal admit_device
    revocable revoke_device from_genesis apply replay expect_open removable revoke_all
    apply_operation verify_signer_authority entry_hash check_entry descriptor_hash
founded = or_empty (from_genesis toy genesis)

abbrev log : List Entry
log = invite_bob ∷ admit_bob ∷ []

abbrev joined : Roster
joined = (replay toy founded log).1

log_accepted : (replay toy founded log).0 ≡ ok tt
unfolding founded
log_accepted = refl

bob_active : was_authorized_in joined (digest 2) 1 ≡ true
unfolding founded
bob_active = refl

bob_removed : (apply toy joined remove_bob).0 ≡ ok tt
unfolding founded
bob_removed = refl

genesis_accepted : from_genesis toy genesis ≡ ok founded
unfolding founded
genesis_accepted = refl

signature_input_separates_example :
    (bytes_of Domain.genesis ≡ bytes_of Domain.genesis) × (◌≡◌ {A = List ℕ} (1 ∷ []) (1 ∷ []))
signature_input_separates_example =
    signature_input_separates Domain.genesis Domain.genesis (1 ∷ []) (1 ∷ []) (omega arith)
      (omega arith) refl

founded-IsWellFormed : IsWellFormed toy founded
founded-IsWellFormed = from_genesis-IsWellFormed toy genesis founded genesis_accepted

joined-IsWellFormed : IsWellFormed toy joined
joined-IsWellFormed = replay-IsWellFormed toy founded log founded-IsWellFormed log_accepted

replay-IsWellFormed_example : IsWellFormed toy joined
replay-IsWellFormed_example = replay-IsWellFormed toy founded log founded-IsWellFormed log_accepted

apply-Authorized_example : Authorized toy founded invite_bob
apply-Authorized_example = apply-Authorized toy founded invite_bob (unfold founded in refl)

-- In the toy channel a hash determines its descriptor.
hashed_as :
    (x : DeviceDescriptor) (k : String)
    → descriptor_hash toy x ≡ ok k
    → ((x ≡ descriptor "alice") × (k ≡ digest 1)) ⊎ ((x ≡ descriptor "bob") × (k ≡ digest 2))
unfolding descriptor_hash canonical_sha256_hex
hashed_as x k h = ground (arith, is_of_sound "alice" x, is_of_sound "bob" x)

toy-CollisionFree : CollisionFree toy
toy-CollisionFree x y k h l =
    ground (arith, hashed_as x k h, hashed_as y k l, eq_iff (digest 1) (digest 2))

was_authorized_in-replay_example :
    was_authorized_in (replay toy joined (remove_bob ∷ [])).1 (digest 2) 1
    ≡ was_authorized_in joined (digest 2) 1
was_authorized_in-replay_example =
    was_authorized_in-replay toy toy-CollisionFree 1 joined (remove_bob ∷ []) (digest 2)
      joined-IsWellFormed (unfold founded in omega arith)

abbrev parted : Roster
parted = (apply toy joined remove_bob).1

parted-IsWellFormed : IsWellFormed toy parted
parted-IsWellFormed = apply-IsWellFormed toy joined remove_bob joined-IsWellFormed bob_removed

abbrev bob_device : ℕ → DeviceStatus → RosterDevice
bob_device added status = record {
  device_id = digest 2;
  principal_id = "bob";
  encryption_recipient = "bob";
  signing_key = "key";
  added_in_epoch = added;
  status = status;
}

replay-was_authorized_in_example :
    was_authorized_in (replay toy parted (invite_bob ∷ [])).1 (digest 2) 7 ≡ false
replay-was_authorized_in_example =
    replay-was_authorized_in toy (digest 2) (bob_device 1 (revoked 2)) refl toy-CollisionFree parted
      (invite_bob ∷ []) 2 7 parted-IsWellFormed (unfold founded in refl) refl (omega arith)

replay-admissions_example : admissions "i" log ≤ (if is_spent_in "i" founded.invites then 0 else 1)
replay-admissions_example = replay-admissions toy "i" founded log log_accepted

refused_unchanged_example : (apply toy joined invite_bob).1 ≡ joined
refused_unchanged_example =
    refused_unchanged toy joined invite_bob {x = sequence_out_of_order 3 1} refl
      (unfold founded in refl)

refused_rotation_revokes_example :
    let after = apply toy joined bad_rotation in
    (after.0 ≡ err (unknown_member "carol"))
    × (get (digest 2) after.1.devices ≡ some (bob_device 1 (revoked 2)))
    × (after.1.epoch ≡ joined.epoch)
unfolding founded
refused_rotation_revokes_example =
    refused_rotation_revokes toy joined bad_rotation (digest 2) (digest 6) (certificate 2 "carol")
      (bob_device 1 active) (unknown_member "carol") refl refl refl refl

-- The toy channel with an encoding for one entry only.
abbrev is_invite : ControlOperation → Bool
is_invite (create_invite i u) = str_eq i "i" && str_eq u "u"
is_invite _ = false

is_invite_sound : (op : ControlOperation) → is_invite op ≡ true → op ≡ create_invite "i" "u"
is_invite_sound (create_invite i u) h = ground (arith, eq_iff i "i", eq_iff u "u")
is_invite_sound (revoke_invite _) h = cc
is_invite_sound _ h = cc

abbrev is_first : ControlEntryPayload → Bool
is_first p =
    p.version == 1
    && (str_eq p.channel_id (digest 3)
        && (p.sequence == 1
            && (str_eq p.previous_hash (digest 3)
                && (p.epoch == 0 && (str_eq p.created_at "t" && is_invite p.operation)))))

is_first_sound : (p : ControlEntryPayload) → is_first p ≡ true → p ≡ invite_bob.payload
is_first_sound p h = ground (
  arith,
  eq_iff p.channel_id (digest 3),
  eq_iff p.previous_hash (digest 3),
  eq_iff p.created_at "t",
  is_invite_sound p.operation,
)

abbrev strict : Primitives
strict = record toy { encode_entry = λ p. if is_first p then ok (4 ∷ []) else err canonicalization }

strict-DistinctHashes : DistinctHashes strict
unfolding entry_hash canonical_sha256_hex
strict-DistinctHashes x y h p q = ground (arith, is_first_sound x, is_first_sound y)

replay_same_head_example :
    (founded.head_hash ≡ founded.head_hash)
    × (payloads (invite_bob ∷ []) ≡ payloads (invite_bob ∷ []))
replay_same_head_example =
    replay_same_head strict strict-DistinctHashes founded founded (invite_bob ∷ [])
      (invite_bob ∷ []) refl (unfold founded in refl) (unfold founded in refl) refl refl
