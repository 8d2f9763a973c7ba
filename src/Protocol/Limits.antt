-- ===== src/Protocol/Limits.antt =====
-- What the checks on attachments and on padding guarantee.
use Prim.Native.String.len
use Prim.Native.String.{len}
use herdr_remote_channel.Prelude.{
  ℕ, ◌≢◌, zero, suc, ◌⊎◌, ◌+◌, ◌-◌, ◌*◌, ◌≤◌, ◌<◌, String, ◌≡◌, refl, Bool, true, false, List, [],
  ◌∷◌, All, length, ◌==◌, ◌||◌, contains, str_eq, eq_iff, eq_refl, arith, inl, inr,
}
use herdr_remote_channel.Errors.{ProtocolError, err, ok, Result-cases}
use herdr_remote_channel.Protocol.Canonical.{expect_hex_digest}
use herdr_remote_channel.Protocol.Envelope.{Attachment}
use herdr_remote_channel.Protocol.Padding.{zeros, padding_for, padding_buckets}
use herdr_remote_channel.Protocol.Attachment.{validate_attachment, add_up, validate_attachments}

-- The bytes that the attachments declare, and their digests.
unfoldable pub total_bytes : List Attachment → ℕ
total_bytes [] = 0
total_bytes (a ∷ attachments) = a.ciphertext_bytes + total_bytes attachments

abbrev pub has_digest : String → List Attachment → Bool
has_digest digest [] = false
has_digest digest (a ∷ attachments) =
    str_eq a.ciphertext_sha256 digest || has_digest digest attachments

abbrev pub DistinctDigests : List Attachment → Type 0
DistinctDigests [] = Unit
DistinctDigests (a ∷ attachments) =
    (has_digest a.ciphertext_sha256 attachments ≡ false) × DistinctDigests attachments

-- The limits of one attachment.
pub record IsWithinLimits (a : Attachment) : Type 0 where
  pub digest : expect_hex_digest "ciphertextSha256" a.ciphertext_sha256 32 ≡ ok tt
  pub nonempty : 0 < a.ciphertext_bytes
  pub bounded : a.ciphertext_bytes ≤ 26214400
  pub plaintext : a.plaintext_bytes ≤ a.ciphertext_bytes
  pub name : len a.name ≤ 255

validate_attachment-IsWithinLimits :
    (a : Attachment) {u : Unit {0}} → validate_attachment a ≡ ok u → IsWithinLimits a
unfolding validate_attachment
validate_attachment-IsWithinLimits a h =
    elim (Result-cases (expect_hex_digest "ciphertextSha256" a.ciphertext_sha256 32)) [
      | inl (u, e) ↦ record {
        digest = e;
        nonempty = ground arith;
        bounded = ground arith;
        plaintext = ground arith;
        name = ground arith;
      }
      | inr (x, e) ↦ ground arith
    ]

add_up-apart :
    (seen : List String) (total : ℕ) (attachments : List Attachment) (digest : String) (sum : ℕ)
    → add_up seen total attachments ≡ ok sum
    → contains seen digest ≡ true
    → has_digest digest attachments ≡ false
unfolding add_up
add_up-apart seen total [] digest sum h before = refl
add_up-apart seen total (a ∷ attachments) digest sum h before =
    elim (Result-cases (validate_attachment a)) [
      | inl (u, valid) ↦ ground (
        arith,
        eq_iff a.ciphertext_sha256 digest,
        add_up-apart (a.ciphertext_sha256 ∷ seen) (total + a.ciphertext_bytes) attachments digest
            sum,
      )
      | inr (x, e) ↦ ground arith
    ]

add_up_sound :
    (seen : List String) (total : ℕ) (attachments : List Attachment) (sum : ℕ)
    → add_up seen total attachments ≡ ok sum
    → All IsWithinLimits attachments
      × DistinctDigests attachments
      × (sum ≡ total + total_bytes attachments)
unfolding add_up total_bytes
add_up_sound seen total [] sum h = (tt, tt, ground arith)
add_up_sound seen total (a ∷ attachments) sum h = elim (Result-cases (validate_attachment a)) [
  | inl (u, valid) ↦
      let seen' = a.ciphertext_sha256 ∷ seen in
      let (each, distinct, adds) =
        add_up_sound seen' (total + a.ciphertext_bytes) attachments sum (ground arith) in
      (
        (validate_attachment-IsWithinLimits a valid, each),
        (
          add_up-apart seen' (total + a.ciphertext_bytes) attachments a.ciphertext_sha256 sum
              (ground arith) (ground (arith, eq_refl a.ciphertext_sha256)),
          distinct,
        ),
        omega (arith, adds),
      )
  | inr (x, e) ↦ ground arith
]

-- Attachments that pass are at most 32, each within its limits, with different digests, and declare
-- at most 25 MiB together.
pub validate_attachments_sound :
    (attachments : List Attachment)
    → validate_attachments attachments ≡ ok tt
    → (length attachments ≤ 32)
      × All IsWithinLimits attachments
      × DistinctDigests attachments
      × (total_bytes attachments ≤ 26214400)
unfolding validate_attachments
validate_attachments_sound attachments h = elim (Result-cases (add_up [] 0 attachments)) [
  | inl (total, added) ↦
      let (each, distinct, adds) = add_up_sound [] 0 attachments total added in
      (ground arith, each, distinct, ground arith)
  | inr (x, e) ↦ ground arith
]

len-zeros : (n : ℕ) → len (zeros n) ≡ n
unfolding zeros
len-zeros zero = refl
len-zeros (suc n) = ground (arith, len.cons "0" (zeros n), len-zeros n)

abbrev pub is_bucket : ℕ → List ℕ → Bool
is_bucket n [] = false
is_bucket n (b ∷ buckets) = b == n || is_bucket n buckets

padding_for-is_bucket :
    (n : ℕ) (padding : String)
    → padding_for n ≡ ok padding
    → (is_bucket (n + len padding) padding_buckets ≡ true)
      × ((n + len padding ≡ 1024) ⊎ (len padding ≤ 3 * n))
unfolding padding_for
padding_for-is_bucket n padding h = ground (
  arith,
  len-zeros (1024 - n),
  len-zeros (4096 - n),
  len-zeros (16384 - n),
  len-zeros (65536 - n),
  len-zeros (262144 - n),
  len-zeros (1048576 - n),
)

padding_for-within : (n : ℕ) {x : ProtocolError} → n ≤ 1048576 → padding_for n ≢ err x
unfolding padding_for
padding_for-within n within e = ground arith

-- A message of at most 1 MiB gets a padding. Message and padding together are exactly one of the
-- buckets, and the padding is at most three times the message's length unless the bucket is the
-- smallest.
pub padding_for-bucket :
    (n : ℕ)
    → n ≤ 1048576
    → (padding : String) × (padding_for n ≡ ok padding)
      × (is_bucket (n + len padding) padding_buckets ≡ true)
      × ((n + len padding ≡ 1024) ⊎ (len padding ≤ 3 * n))
padding_for-bucket n within = elim (Result-cases (padding_for n)) [
  | inl (padding, e) ↦
      let (bucket, bound) = padding_for-is_bucket n padding e in (padding, e, bucket, bound)
  | inr (x, e) ↦ absurd (padding_for-within n within e)
]
