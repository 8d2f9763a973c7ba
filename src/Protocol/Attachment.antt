-- ===== src/Protocol/Attachment.antt =====
-- crates/hrc-protocol/src/attachment.rs: the limits on a message's attachments.
use Prim.Native.String.{len}
use herdr_remote_channel.Prelude.{
  ℕ, ◌+◌, ◌-◌, ◌*◌, ◌^◌, String, List, [], ◌∷◌, length, ltb, leb, ◌==◌, contains, str_eq,
  if◌then◌else◌,
}
use herdr_remote_channel.Errors.{
  ProtocolError, missing_field, message_too_large, derived_mismatch, Result, ok, err, reject_if,
  ◌>>=◌, ◌>>◌,
}
use herdr_remote_channel.Protocol.Canonical.{expect_hex_digest}
use herdr_remote_channel.Protocol.Envelope.{Attachment}

abbrev pub max_attachment_ciphertext_bytes : ℕ
max_attachment_ciphertext_bytes = 25 * (1024 * 1024)

abbrev pub max_message_attachment_bytes : ℕ
max_message_attachment_bytes = 25 * (1024 * 1024)

abbrev pub max_attachments : ℕ
max_attachments = 32

abbrev pub max_name_bytes : ℕ
max_name_bytes = 255

abbrev usize_max : ℕ
usize_max = 2 ^ 64 - 1

unfoldable pub validate_attachment : Attachment → Result ProtocolError (Unit {0})
validate_attachment a = do
  expect_hex_digest "ciphertextSha256" a.ciphertext_sha256 32
  reject_if (str_eq a.name "") (missing_field "name")
  reject_if (ltb max_name_bytes (len a.name)) (message_too_large (len a.name) max_name_bytes)
  reject_if (str_eq a.media_type "") (missing_field "mediaType")
  reject_if (a.ciphertext_bytes == 0) (missing_field "ciphertextBytes")
  reject_if (ltb max_attachment_ciphertext_bytes a.ciphertext_bytes)
      (message_too_large a.ciphertext_bytes max_attachment_ciphertext_bytes)
  reject_if (ltb a.ciphertext_bytes a.plaintext_bytes) (derived_mismatch "plaintextBytes")

-- `u64::checked_add`, with the error of its `None`.
abbrev pub checked_add : ℕ → ℕ → Result ProtocolError ℕ
checked_add total bytes =
    if leb (total + bytes) (2 ^ 64 - 1)
    then ok (total + bytes)
    else err (message_too_large usize_max max_message_attachment_bytes)

-- The loop of `validate_attachments`, and the total it computes.
unfoldable pub add_up : List String → ℕ → List Attachment → Result ProtocolError ℕ
unfolding validate_attachment
add_up seen total [] = ok total
add_up seen total (a ∷ attachments) = do
  validate_attachment a
  reject_if (contains seen a.ciphertext_sha256) (derived_mismatch "ciphertextSha256")
  total' ← checked_add total a.ciphertext_bytes
  add_up (a.ciphertext_sha256 ∷ seen) total' attachments

unfoldable pub validate_attachments : List Attachment → Result ProtocolError (Unit {0})
unfolding add_up
validate_attachments attachments = do
  reject_if (ltb max_attachments (length attachments))
      (message_too_large (length attachments) max_attachments)
  total ← add_up [] 0 attachments
  reject_if (ltb max_message_attachment_bytes total)
      (message_too_large total max_message_attachment_bytes)
