-- ===== src/Protocol/Identity.antt =====
-- crates/hrc-protocol/src/identity.rs: device descriptors and their certificates.
use herdr_remote_channel.Prelude.{
  ℕ, String, ◌≡◌, inl, inr, Option, str_eq, if◌then◌else◌, eq_iff, arith,
}
use herdr_remote_channel.Errors.{
  ProtocolError, derived_mismatch, Result, ok, err, ◌>>=◌, ◌>>◌, Result-cases,
}
use herdr_remote_channel.Protocol.Canonical.{expect_hex_digest}

pub record DeviceDescriptor : Type 0 where
  pub version : ℕ
  pub principal_id : String
  pub encryption_recipient : String
  pub signing_key : String
  pub created_at : String
  pub expires_at : Option String
  pub nonce : String

pub record DeviceCertificatePayload : Type 0 where
  pub device_id : String
  pub descriptor : DeviceDescriptor

-- `hash` is `canonical_sha256_hex` at descriptors.
module _ (hash : DeviceDescriptor → Result ProtocolError String) where
  unfoldable pub verify_device_id : DeviceCertificatePayload → Result ProtocolError (Unit {0})
  verify_device_id p = do
    expect_hex_digest "deviceId" p.device_id 32
    derived ← hash p.descriptor
    if str_eq derived p.device_id then ok tt else err (derived_mismatch "deviceId")

  -- A payload is accepted only if its identifier is the one that its descriptor hashes to.
  pub verify_device_id-derived :
      (p : DeviceCertificatePayload)
      → verify_device_id p ≡ ok tt
      → hash p.descriptor ≡ ok p.device_id
  unfolding verify_device_id
  verify_device_id-derived p h = elim (Result-cases (hash p.descriptor)) [
    | inl (derived, e) ↦ ground (arith, eq_iff derived p.device_id)
    | inr (e, r) ↦ ground arith
  ]
