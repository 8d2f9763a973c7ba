-- ===== src/Roster/Toy.antt =====
-- A small channel on which the roster's theorems are run: Alice founds it, invites Bob, and Bob
-- joins. The third-party primitives are replaced by concrete functions.
use herdr_remote_channel.Prelude.{
  ℕ, zero, suc, ◌+◌, String, ◌≡◌, Bool, true, false, ◌&&◌, Option, none, some, List, [], ◌∷◌, ◌==◌,
  str_eq, if◌then◌else◌, eq_iff, arith,
}
use herdr_remote_channel.Errors.{canonicalization, ok, err}
use herdr_remote_channel.Protocol.Signed.{SignedObject}
use herdr_remote_channel.Protocol.Identity.{DeviceDescriptor}
use herdr_remote_channel.Protocol.Control.{
  DeviceCertificate, PrincipalMaterial, GenesisPayload, ControlOperation, create_invite, add_member,
  remove_member, rotate_device_key, ControlEntryPayload,
}
use herdr_remote_channel.Crypto.{Primitives}

abbrev pub digest : ℕ → String
digest n =
    if n == 1
    then "1111111111111111111111111111111111111111111111111111111111111111"
    else if n == 2
    then "2222222222222222222222222222222222222222222222222222222222222222"
    else if n == 3
    then "3333333333333333333333333333333333333333333333333333333333333333"
    else if n == 4
    then "4444444444444444444444444444444444444444444444444444444444444444"
    else if n == 5
    then "5555555555555555555555555555555555555555555555555555555555555555"
    else if n == 6
    then "6666666666666666666666666666666666666666666666666666666666666666"
    else "0000000000000000000000000000000000000000000000000000000000000000"

abbrev first_of_bytes : List ℕ → ℕ
first_of_bytes [] = 0
first_of_bytes (b ∷ _) = b

abbrev zeros : ℕ → List ℕ
zeros zero = []
zeros (suc n) = 0 ∷ zeros n

abbrev pub descriptor : String → DeviceDescriptor
descriptor name = record {
  version = 1;
  principal_id = name;
  encryption_recipient = name;
  signing_key = "key";
  created_at = "t";
  expires_at = none;
  nonce = name;
}

abbrev is_none : Option String → Bool
is_none none = true
is_none (some _) = false

-- Whether the descriptor is the one that `descriptor name` builds.
abbrev pub is_of : String → DeviceDescriptor → Bool
is_of name d =
    d.version == 1
    && (str_eq d.principal_id name
        && (str_eq d.encryption_recipient name
            && (str_eq d.signing_key "key"
                && (str_eq d.created_at "t" && (is_none d.expires_at && str_eq d.nonce name)))))

pub is_of_sound : (name : String) (d : DeviceDescriptor) → is_of name d ≡ true → d ≡ descriptor name
is_of_sound name d h = ground (
  arith,
  eq_iff d.principal_id name,
  eq_iff d.encryption_recipient name,
  eq_iff d.signing_key "key",
  eq_iff d.created_at "t",
  eq_iff d.nonce name,
)

-- Only the two devices of the channel have an encoding, and an entry is encoded by its sequence.
abbrev pub toy : Primitives
toy = record {
  encode_descriptor = λ d.
      if is_of "alice" d
      then ok (1 ∷ [])
      else if is_of "bob" d
      then ok (2 ∷ [])
      else err canonicalization;
  encode_certificate = λ p. ok (0 ∷ []);
  encode_genesis = λ g. ok (3 ∷ []);
  encode_entry = λ p. ok ((p.sequence + 3) ∷ []);
  sha256_hex = λ bytes. digest (first_of_bytes bytes);
  base64url = λ s. some (zeros (if str_eq s "sig" then 64 else 32));
  key_from_bytes = λ bytes. some bytes;
  verify = λ key message signature. true;
}

-- Signed by Alice's device.
abbrev by_alice : {P : Type 0} → P → SignedObject P
by_alice payload = record {
  version = 1;
  signer = record { principal_id = "alice"; device_id = digest 1 };
  payload = payload;
  signature = "sig";
}

abbrev pub certificate : ℕ → String → DeviceCertificate
certificate n name = by_alice (record { device_id = digest n; descriptor = descriptor name })

abbrev pub material : ℕ → String → PrincipalMaterial
material n name = record {
  principal_id = name;
  principal_signing_key = "key";
  devices = certificate n name ∷ [];
}

abbrev pub genesis : SignedObject GenesisPayload
genesis = by_alice (record {
  version = 1;
  created_at = "t";
  initial_admin = material 1 "alice";
  transport = record { kind = "git"; locator = "o/n" };
  policy = "{}";
})

-- The `n`th entry of the log, in the epoch given.
abbrev pub entry : ℕ → ℕ → ControlOperation → SignedObject ControlEntryPayload
entry n epoch operation = by_alice (record {
  version = 1;
  channel_id = digest 3;
  sequence = n;
  previous_hash = digest (n + 2);
  epoch = epoch;
  created_at = "t";
  operation = operation;
})

abbrev pub invite_bob : SignedObject ControlEntryPayload
invite_bob = entry 1 0 (create_invite "i" "u")

abbrev pub admit_bob : SignedObject ControlEntryPayload
admit_bob = entry 2 1 (add_member "i" (material 2 "bob"))

abbrev pub remove_bob : SignedObject ControlEntryPayload
remove_bob = entry 3 2 (remove_member "bob")

-- Replaces Bob's device by one whose certificate names no member.
abbrev pub bad_rotation : SignedObject ControlEntryPayload
bad_rotation = entry 3 2 (rotate_device_key (digest 2) (certificate 2 "carol"))
