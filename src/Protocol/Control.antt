-- ===== src/Protocol/Control.antt =====
-- crates/hrc-protocol/src/control.rs: genesis, the control operations and the control entry.
use herdr_remote_channel.Prelude.{ℕ, String, Bool, true, false, not, List, ◌==◌}
use herdr_remote_channel.Errors.{
  ProtocolError, unsupported_version, invalid_control_sequence, Result, reject_if, ◌>>◌,
}
use herdr_remote_channel.Protocol.{protocol_version}
use herdr_remote_channel.Protocol.Canonical.{expect_hex_digest}
use herdr_remote_channel.Protocol.Signed.{SignedObject}
use herdr_remote_channel.Protocol.Identity.{DeviceCertificatePayload}

abbrev pub DeviceCertificate : Type 0
DeviceCertificate = SignedObject DeviceCertificatePayload

pub record TransportLocator : Type 0 where
  pub kind : String
  pub locator : String

pub record PrincipalMaterial : Type 0 where
  pub principal_id : String
  pub principal_signing_key : String
  pub devices : List DeviceCertificate

-- A `serde_json::Value` is opaque here: its text.
pub record GenesisPayload : Type 0 where
  pub version : ℕ
  pub created_at : String
  pub initial_admin : PrincipalMaterial
  pub transport : TransportLocator
  pub policy : String

pub data ControlOperation : Type 0 where
  create_invite : (invite_id expires_at : String) → ControlOperation
  revoke_invite : (invite_id : String) → ControlOperation
  add_member : (invite_id : String) (member : PrincipalMaterial) → ControlOperation
  remove_member : (principal_id : String) → ControlOperation
  add_device : (certificate : DeviceCertificate) → ControlOperation
  revoke_device : (device_id : String) → ControlOperation
  rotate_device_key :
      (previous_device_id : String) (certificate : DeviceCertificate) → ControlOperation
  rotate_principal_key : (principal_id principal_signing_key : String) → ControlOperation
  update_policy : (policy : String) → ControlOperation
  rollover_repository : (transport : TransportLocator) → ControlOperation

unfoldable pub advances_epoch : ControlOperation → Bool
advances_epoch (add_member _ _) = true
advances_epoch (remove_member _) = true
advances_epoch (add_device _) = true
advances_epoch (revoke_device _) = true
advances_epoch (rotate_device_key _ _) = true
advances_epoch (rotate_principal_key _ _) = true
advances_epoch (create_invite _ _) = false
advances_epoch (revoke_invite _) = false
advances_epoch (update_policy _) = false
advances_epoch (rollover_repository _) = false

pub record ControlEntryPayload : Type 0 where
  pub version : ℕ
  pub channel_id : String
  pub sequence : ℕ
  pub previous_hash : String
  pub epoch : ℕ
  pub created_at : String
  pub operation : ControlOperation

unfoldable pub validate_shape : ControlEntryPayload → Result ProtocolError (Unit {0})
validate_shape p = do
  reject_if (not (p.version == protocol_version)) (unsupported_version p.version protocol_version)
  expect_hex_digest "channelId" p.channel_id 32
  expect_hex_digest "previousHash" p.previous_hash 32
  reject_if (p.sequence == 0) (invalid_control_sequence 0)
