-- ===== src/Protocol/Examples.antt =====
-- Tests of the limits on attachments and on padding, and their theorems there.
use herdr_remote_channel.Prelude.{ℕ, ◌≤◌, ◌≡◌, refl, String, List, [], ◌∷◌, All, length}
use herdr_remote_channel.Errors.{ok, err, message_too_large}
use herdr_remote_channel.Protocol.Envelope.{Attachment}
use herdr_remote_channel.Protocol.Canonical.{expect_hex_digest}
use herdr_remote_channel.Protocol.Attachment.{validate_attachments}
use herdr_remote_channel.Protocol.Padding.{padding_for}
use herdr_remote_channel.Protocol.Limits.{
  IsWithinLimits, DistinctDigests, total_bytes, validate_attachments_sound,
}

abbrev file : String → ℕ → Attachment
file digest bytes = record {
  name = "report";
  media_type = "text/plain";
  ciphertext_sha256 = digest;
  ciphertext_bytes = bytes;
  plaintext_bytes = 1;
}

abbrev ones : String
ones = "1111111111111111111111111111111111111111111111111111111111111111"

abbrev twos : String
twos = "2222222222222222222222222222222222222222222222222222222222222222"

abbrev files : List Attachment
files = file ones 20000000 ∷ file twos 6000000 ∷ []

validate_attachments_sound_example :
    (length files ≤ 32)
    × All IsWithinLimits files
    × DistinctDigests files
    × (total_bytes files ≤ 26214400)
validate_attachments_sound_example =
    validate_attachments_sound files (unfold validate_attachments expect_hex_digest in refl)

-- Each file is within its limit, and together they are not.
too_much_together :
    validate_attachments (file ones 20000000 ∷ file twos 20000000 ∷ [])
    ≡ err (message_too_large 40000000 26214400)
unfolding validate_attachments expect_hex_digest
too_much_together = refl

padding_of_1020 : padding_for 1020 ≡ ok "0000"
unfolding padding_for
padding_of_1020 = refl
