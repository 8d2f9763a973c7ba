-- ===== src/Crypto.antt =====
-- crates/hrc-crypto/src/lib.rs: verification keys. `serde_jcs`, `sha2`, `base64` and
-- `ed25519_dalek` are the parameter `Primitives`.
use herdr_remote_channel.Prelude.{ℕ, String, Bool, not, Option, List, length, ◌==◌}
use herdr_remote_channel.Errors.{
  ProtocolError, CryptoError, public_key, signature_format, signature_invalid, protocol_in_crypto,
  Result, ok, map_err, ok_or, reject_if, ◌>>=◌, ◌>>◌,
}
use herdr_remote_channel.Protocol.Identity.{DeviceDescriptor, DeviceCertificatePayload}
use herdr_remote_channel.Protocol.Control.{GenesisPayload, ControlEntryPayload}
use herdr_remote_channel.Protocol.Signed.{SignedObject, signature_input}

pub record Primitives : Type 0 where
  -- `to_canonical_bytes`, at each type that is signed or hashed.
  pub encode_descriptor : DeviceDescriptor → Result ProtocolError (List ℕ)
  pub encode_certificate : DeviceCertificatePayload → Result ProtocolError (List ℕ)
  pub encode_genesis : GenesisPayload → Result ProtocolError (List ℕ)
  pub encode_entry : ControlEntryPayload → Result ProtocolError (List ℕ)
  -- `hex::encode(Sha256::digest(bytes))`.
  pub sha256_hex : List ℕ → String
  -- `URL_SAFE_NO_PAD.decode`.
  pub base64url : String → Option (List ℕ)
  -- `ed25519_dalek::VerifyingKey::from_bytes`, and `verify` at key, message and signature.
  pub key_from_bytes : List ℕ → Option (List ℕ)
  pub verify : List ℕ → List ℕ → List ℕ → Bool

module _ (c : Primitives) where
  -- `canonical_sha256_hex`, given the canonical bytes.
  unfoldable pub canonical_sha256_hex : Result ProtocolError (List ℕ) → Result ProtocolError String
  canonical_sha256_hex encoded = do bytes ← encoded; ok (c.sha256_hex bytes)

  unfoldable pub from_base64url : String → String → Result CryptoError (List ℕ)
  from_base64url field value = do
    bytes ← ok_or (c.base64url value) (public_key field)
    reject_if (not (length bytes == 32)) (public_key field)
    ok_or (c.key_from_bytes bytes) (public_key field)

  unfoldable pub verify_payload :
      List ℕ → String → Result ProtocolError (List ℕ) → String → Result CryptoError (Unit {0})
  verify_payload key domain canonical signature = do
    bytes ← ok_or (c.base64url signature) (signature_format "signature")
    reject_if (not (length bytes == 64)) (signature_format "signature")
    input ← map_err protocol_in_crypto (signature_input domain canonical)
    reject_if (not (c.verify key input bytes)) (signature_invalid domain)

  unfoldable pub verify_object :
      {P : Type 0}
      → List ℕ
      → String
      → (P → Result ProtocolError (List ℕ))
      → SignedObject P
      → Result CryptoError (Unit {0})
  verify_object key domain encode object =
      verify_payload key domain (encode object.payload) object.signature
