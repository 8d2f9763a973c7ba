-- ===== src/Gate/View.antt =====
-- crates/hrc-core/src/gate.rs: the agent-safe view of a quarantined message, with closed values and
-- fixed labels in place of most texts that its sender chose.
use herdr_remote_channel.Prelude.{
  ℕ, ◌+◌, ◌-◌, ◌^◌, String, ◌≡◌, ◌⊎◌, ◌↔◌, Bool, true, false, Option, none, some, List, [], ◌∷◌,
  length, leb, str_eq, if◌then◌else◌,
}
use herdr_remote_channel.Protocol.Kind
use herdr_remote_channel.Protocol.Ulid.{is_ulid}
use herdr_remote_channel.Protocol.Envelope.{Attachment, is_valid_endpoint}
use herdr_remote_channel.Gate.{QuarantinedMessage}

abbrev unknown_endpoint : String
unknown_endpoint = "unknown endpoint"

abbrev unknown_thread : String
unknown_thread = "unknown thread"

abbrev unknown_message : String
unknown_message = "unknown message"

abbrev prompt_capability : String
prompt_capability = "prompt:request"

abbrev unsupported : String
unsupported = "unsupported"

-- A total in `u64` that stops at the largest value.
abbrev pub saturating_add : ℕ → ℕ → ℕ
saturating_add a b = if leb (a + b) (2 ^ 64 - 1) then a + b else 2 ^ 64 - 1

unfoldable pub fold_bytes : ℕ → List Attachment → ℕ
fold_bytes total [] = total
fold_bytes total (a ∷ attachments) =
    fold_bytes (saturating_add total a.ciphertext_bytes) attachments

-- `u32::try_from(n).unwrap_or(u32::MAX)`.
abbrev to_u32 : ℕ → ℕ
to_u32 n = if leb n (2 ^ 32 - 1) then n else 2 ^ 32 - 1

unfoldable pub endpoint_label : Option String → String
endpoint_label none = ""
endpoint_label (some endpoint) = if is_valid_endpoint endpoint then endpoint else unknown_endpoint

unfoldable pub thread_label : Option String → String
thread_label none = unknown_thread
thread_label (some thread_id) = if is_ulid thread_id then thread_id else unknown_thread

unfoldable pub message_label : String → String
message_label message_id = if is_ulid message_id then message_id else unknown_message

abbrev kind_label : Option Kind.MessageKind → String
kind_label (some kind) = Kind.as_str kind
kind_label none = unsupported

abbrev is_prompt_request : Option String → Bool
is_prompt_request none = false
is_prompt_request (some capability) = str_eq capability prompt_capability

pub record AgentView : Type 0 where
  pub sender_principal : String
  pub sender_local_name : String
  pub kind : String
  pub channel_local_name : String
  pub endpoint_label : String
  pub ciphertext_bytes : ℕ
  pub plaintext_bytes : ℕ
  pub created_at : String
  pub arrival_at : String
  pub expires_at : Option String
  pub thread_label : String
  pub prompt_request : Bool
  pub attachment_count : ℕ
  pub attachment_bytes : ℕ
  pub awaiting_decision : Bool

unfoldable pub agent_view : QuarantinedMessage → String → String → ℕ → ℕ → String → AgentView
unfolding endpoint_label thread_label fold_bytes
agent_view message sender_local_name channel_local_name plaintext_bytes ciphertext_bytes
      arrival_at =
    record {
      sender_principal = message.sender_principal;
      sender_local_name = sender_local_name;
      kind = kind_label (Kind.parse message.envelope.kind);
      channel_local_name = channel_local_name;
      endpoint_label = endpoint_label message.envelope.to.endpoint;
      ciphertext_bytes = ciphertext_bytes;
      plaintext_bytes = plaintext_bytes;
      created_at = message.envelope.created_at;
      arrival_at = arrival_at;
      expires_at = message.envelope.expires_at;
      thread_label = thread_label (some message.envelope.thread_id);
      prompt_request = is_prompt_request message.envelope.requested_capability;
      attachment_count = to_u32 (length message.envelope.attachments);
      attachment_bytes = fold_bytes 0 message.envelope.attachments;
      awaiting_decision = true;
    }

-- The bytes that the attachments declare, without a bound.
unfoldable pub declared : List Attachment → ℕ
declared [] = 0
declared (a ∷ attachments) = a.ciphertext_bytes + declared attachments

-- What the view shows of a message. Only `created_at` and `expires_at` are the sender's own text.
pub record Shows (m : QuarantinedMessage) (sender channel : String) (plain cipher : ℕ)
    (arrival : String) (view : AgentView) : Type 0 where
  pub kind :
      ((k : Kind.MessageKind) × (view.kind ≡ Kind.as_str k) × (Kind.parse m.envelope.kind ≡ some k))
      ⊎ ((view.kind ≡ unsupported) × (Kind.parse m.envelope.kind ≡ none))
  pub endpoint :
      ((m.envelope.to.endpoint ≡ some view.endpoint_label)
        × (is_valid_endpoint view.endpoint_label ≡ true))
      ⊎ (((m.envelope.to.endpoint ≡ none) × (view.endpoint_label ≡ ""))
          ⊎ (view.endpoint_label ≡ unknown_endpoint))
  pub thread :
      ((view.thread_label ≡ m.envelope.thread_id) × (is_ulid view.thread_label ≡ true))
      ⊎ ((view.thread_label ≡ unknown_thread) × (is_ulid m.envelope.thread_id ≡ false))
  pub capability :
      (view.prompt_request ≡ true) ↔ (m.envelope.requested_capability ≡ some prompt_capability)
  pub attachments : view.attachment_bytes ≡ saturating_add 0 (declared m.envelope.attachments)
  pub local :
      (view.sender_principal ≡ m.sender_principal)
      × (view.sender_local_name ≡ sender)
      × (view.channel_local_name ≡ channel)
      × (view.plaintext_bytes ≡ plain)
      × (view.ciphertext_bytes ≡ cipher)
      × (view.arrival_at ≡ arrival)
  pub unparsed :
      (view.created_at ≡ m.envelope.created_at) × (view.expires_at ≡ m.envelope.expires_at)
