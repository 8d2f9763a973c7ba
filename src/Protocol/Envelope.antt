-- ===== src/Protocol/Envelope.antt =====
-- crates/hrc-protocol/src/{message,recipients,attachment}.rs: the envelope's fields.
use Prim.Native.String.{len}
use herdr_remote_channel.Prelude.{
  ℕ, String, Bool, true, false, ◌&&◌, ◌||◌, Option, none, some, List, [], ◌∷◌, leb, ◌==◌, str_le,
}
use herdr_remote_channel.Prelude.BTreeMap.{BTreeMap}
use herdr_remote_channel.Protocol.Canonical.{bytes_of}

pub record Addressing : Type 0 where
  pub principals : List String
  pub endpoint : Option String

pub record RecipientDevices : Type 0 where
  pub device_ids : List String
  pub devices_hash : String

pub record Attachment : Type 0 where
  pub name : String
  pub media_type : String
  pub ciphertext_sha256 : String
  pub ciphertext_bytes : ℕ
  pub plaintext_bytes : ℕ

-- `body` is a `serde_json::Value`: its text.
pub record MessageEnvelope : Type 0 where
  pub version : ℕ
  pub channel_id : String
  pub roster_epoch : ℕ
  pub message_id : String
  pub device_sequence : ℕ
  pub previous_chain_id : Option String
  pub created_at : String
  pub expires_at : Option String
  pub to : Addressing
  pub recipients : RecipientDevices
  pub recipient_previous_chain_ids : Option (BTreeMap (Option String))
  pub thread_id : String
  pub in_reply_to : Option String
  pub kind : String
  pub requested_capability : Option String
  pub body : String
  pub attachments : List Attachment
  pub padding : String

unfoldable pub is_expired_at : MessageEnvelope → String → Bool
is_expired_at envelope now = elim envelope.expires_at [
  | none ↦ false
  | some expiry ↦ str_le expiry now
]

abbrev is_ascii_lowercase : ℕ → Bool
is_ascii_lowercase c = leb b'a' c && leb c b'z'

abbrev is_endpoint_character : ℕ → Bool
is_endpoint_character c =
    is_ascii_lowercase c || (leb b'0' c && leb c b'9') || c == b'_' || c == b'-'

abbrev all_endpoint_characters : List ℕ → Bool
all_endpoint_characters [] = true
all_endpoint_characters (c ∷ cs) = is_endpoint_character c && all_endpoint_characters cs

abbrev starts_lowercase : List ℕ → Bool
starts_lowercase [] = false
starts_lowercase (c ∷ cs) = is_ascii_lowercase c && all_endpoint_characters cs

unfoldable pub is_valid_endpoint : String → Bool
is_valid_endpoint value = starts_lowercase (bytes_of value) && leb (len value) 32
