-- ===== src/Roster/Certified.antt =====
-- What a certificate that passed `check_certificate` says of its device.
use herdr_remote_channel.Prelude.{
  String, ◌≡◌, inl, inr, true, none, some, List, [], ◌∷◌, All, arith, eq_iff, Option-cases,
}
use herdr_remote_channel.Prelude.BTreeMap.{get, contains_key-get}
use herdr_remote_channel.Errors.{ProtocolError, Result, ok}
use herdr_remote_channel.Protocol.Identity.{DeviceDescriptor, verify_device_id-derived}
use herdr_remote_channel.Protocol.Control.{DeviceCertificate, PrincipalMaterial}
use herdr_remote_channel.Crypto.{Primitives, canonical_sha256_hex}
use herdr_remote_channel.Roster.Admission.{check_certificate, check_certificates, check_admission}
use herdr_remote_channel.Roster.State.{RosterMember, Roster}

-- `DeviceDescriptor::device_id`.
unfoldable pub descriptor_hash : Primitives → DeviceDescriptor → Result ProtocolError String
descriptor_hash c d = canonical_sha256_hex c (c.encode_descriptor d)

module _ (c : Primitives) where
  -- The identifier is derived from the descriptor, which names the principal `p`.
  pub record Certifies (p : String) (certificate : DeviceCertificate) : Type 0 where
    pub derived :
        descriptor_hash c certificate.payload.descriptor ≡ ok certificate.payload.device_id
    pub names : certificate.payload.descriptor.principal_id ≡ p

  pub check_certificate-Certifies :
      (certificate : DeviceCertificate) (p : String) (material : PrincipalMaterial)
      → check_certificate c certificate p material ≡ ok tt
      → Certifies p certificate
  unfolding check_certificate descriptor_hash
  check_certificate-Certifies certificate p material h =
      let payload = certificate.payload in
      ground (
        arith,
        eq_iff payload.descriptor.principal_id p,
        verify_device_id-derived (λ d. canonical_sha256_hex c (c.encode_descriptor d)) payload,
      )

  pub check_certificates-Certifies :
      (certificates : List DeviceCertificate) (material : PrincipalMaterial)
      → check_certificates c certificates material ≡ ok tt
      → All (Certifies material.principal_id) certificates
  unfolding check_certificates
  check_certificates-Certifies [] material h = tt
  check_certificates-Certifies (x ∷ rest) material h = (
    check_certificate-Certifies x material.principal_id material (ground arith),
    check_certificates-Certifies rest material (ground arith),
  )

  -- What holds when `admit_device` may insert.
  pub record Admissible (certificate : DeviceCertificate) (r : Roster) : Type 0 where
    pub owner : RosterMember
    pub found : get certificate.payload.descriptor.principal_id r.members ≡ some owner
    pub is_active : owner.is_active ≡ true
    pub certified : Certifies certificate.payload.descriptor.principal_id certificate
    pub is_new : get certificate.payload.device_id r.devices ≡ none

  pub check_admission-Admissible :
      (certificate : DeviceCertificate) (r : Roster)
      → check_admission c certificate r ≡ ok tt
      → Admissible certificate r
  unfolding check_admission
  check_admission-Admissible certificate r h =
      let p = certificate.payload.descriptor.principal_id in
      elim (Option-cases (get p r.members)) [
        | inl e ↦ ground arith
        | inr (m, e) ↦ record {
          owner = m;
          found = e;
          is_active = ground arith;
          certified =
              check_certificate-Certifies certificate p
                (record {
                  principal_id = m.principal_id;
                  principal_signing_key = m.principal_signing_key;
                  devices = [];
                })
                (ground arith);
          is_new = ground (arith, contains_key-get certificate.payload.device_id r.devices);
        }
      ]
