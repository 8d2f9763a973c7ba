-- ===== src/Rpc.antt =====
-- crates/hrc-core/src/rpc.rs: the requests of agents and of the trusted local interface, their
-- responses, and the broker that answers them.
pub mod Context
pub mod Agent
pub mod Trusted
pub mod Confined
pub mod HandedOver
pub mod Delivered
pub mod Spent
pub mod StaysSpent
pub mod Single
pub mod Publication
mod Examples
use herdr_remote_channel.Prelude.{ℕ, String, Bool, true, false, Option, List}
use herdr_remote_channel.Errors.{CoreError, Result}
use herdr_remote_channel.Visibility.{PublicDisclosure, ConfirmedPublication}
use herdr_remote_channel.Gate.{
  QuarantinedMessage, Decision, deliver_to_agent, deliver_edited, keep_in_inbox, decline,
  DecisionRecord,
}
use herdr_remote_channel.Gate.View.{AgentView}

pub data AgentRequest : Type 0 where
  status channels whoami doctor audit : AgentRequest
  inbox : (pending_only : Bool) → AgentRequest
  show_approved : (message_id : String) → AgentRequest
  draft : (recipient text : String) → (endpoint : Option String) → AgentRequest
  wait : (message_id until : String) → AgentRequest

pub data WireDecision : Type 0 where
  wire_deliver : (agent : String) → WireDecision
  wire_edited : (agent text : String) → WireDecision
  wire_keep : WireDecision
  wire_decline : (reason : Option String) → WireDecision

pub data TrustedRequest : Type 0 where
  preview_context : (recipient package_id : String) → TrustedRequest
  send_context : (recipient package_id authorization : String) → TrustedRequest
  preview_pending : (message_id : String) → TrustedRequest
  approve :
      (message_id : String) → (decision : WireDecision) → (expires_at : String) → TrustedRequest
  approve_join reject_join : (request_id : String) → TrustedRequest
  remove_member : (principal_id : String) → TrustedRequest
  set_alias : (principal_id : String) → (display_name : Option String) → TrustedRequest
  revoke_device : (device_id : String) → TrustedRequest
  grant_capability : (principal_id capability : String) → TrustedRequest
  make_repository_public : (shown : List PublicDisclosure) → (typed : String) → TrustedRequest
  rollover : TrustedRequest

pub data Request : Type 0 where
  agent_request : AgentRequest → Request
  trusted_request : TrustedRequest → Request

unfoldable pub requires_trusted_surface : Request → Bool
requires_trusted_surface (agent_request _) = false
requires_trusted_surface (trusted_request _) = true

-- `TrustedRequest::method`.
unfoldable pub method : TrustedRequest → String
method (preview_context _ _) = "preview_context"
method (send_context _ _ _) = "send_context"
method (preview_pending _) = "preview_pending"
method (approve _ _ _) = "approve"
method (approve_join _) = "approve_join"
method (reject_join _) = "reject_join"
method (remove_member _) = "remove_member"
method (set_alias _ _) = "set_alias"
method (revoke_device _) = "revoke_device"
method (grant_capability _ _) = "grant_capability"
method (make_repository_public _ _) = "make_repository_public"
method rollover = "rollover"

-- `Decision::from`, over `canonical::sha256_hex` of a text's bytes.
unfoldable pub decision_of : (String → String) → WireDecision → Decision
decision_of sha256 (wire_deliver agent) = deliver_to_agent agent
decision_of sha256 (wire_edited agent text) = deliver_edited agent (sha256 text)
decision_of sha256 wire_keep = keep_in_inbox
decision_of sha256 (wire_decline reason) = decline reason

pub record ChannelStatus : Type 0 where
  pub local_name : String
  pub roster_epoch : ℕ
  pub pending : ℕ
  pub halted : Bool

pub data AgentResponse : Type 0 where
  the_status : List ChannelStatus → AgentResponse
  the_channels : List String → AgentResponse
  the_identity : (principal_id device_id : String) → AgentResponse
  the_inbox : List AgentView → AgentResponse
  approved : (message_id text : String) → AgentResponse
  the_checks : List (String × Bool) → AgentResponse
  the_audit : List String → AgentResponse
  drafted : (draft_id : String) → AgentResponse
  waited : (state : String) → AgentResponse

pub record ContextPreviewSummary : Type 0 where
  pub package_id : String
  pub digest : String
  pub content : String
  pub items : List (String × ℕ)
  pub total_bytes : ℕ

pub data TrustedResponse : Type 0 where
  context_preview : ContextPreviewSummary → (authorization : String) → TrustedResponse
  pending_message : (message_id body : String) → TrustedResponse
  delivered : (agent framed : String) → TrustedResponse
  done : TrustedResponse

pub record ContextAuthorizationScope : Type 0 where
  pub channel_id : String
  pub package_id : String
  pub digest : String
  pub recipient : String
  pub action : String

-- The trait `Broker`, over the state that an implementation keeps. A `&mut self` method returns the
-- state that it leaves behind.
pub record Broker (S : Type 0) : Type 0 where
  pub channel_status : S → List ChannelStatus
  pub channel_names : S → List String
  pub local_identity : S → String × String
  pub inbox_views : S → Bool → List AgentView
  pub approved_content : S → String → Option String
  pub checks : S → List (String × Bool)
  pub audit_entries : S → List String
  pub record_draft : String → String → Option String → S → String × S
  pub observe : S → String → String → Option String
  pub summarize_context : S → String → Result CoreError ContextPreviewSummary
  pub context_authorization_scope : S → String → String → Result CoreError ContextAuthorizationScope
  pub context_authorization_expiry : S → String → Result CoreError String
  pub deliver_context : ContextAuthorizationScope → S → Result CoreError (Unit {0}) × S
  pub pending_quarantined : S → String → Option QuarantinedMessage
  pub pending_body : S → String → Option String
  pub channel_local_name : S → String → String
  pub local_user : S → String
  pub record_decision_record : DecisionRecord → S → Result CoreError (Unit {0}) × S
  pub publication_channel_name : S → Result CoreError String
  pub publish_repository : ConfirmedPublication → S → Result CoreError (Unit {0}) × S
  pub apply_trusted : TrustedRequest → S → Result CoreError (Unit {0}) × S
