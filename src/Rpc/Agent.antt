-- ===== src/Rpc/Agent.antt =====
-- crates/hrc-core/src/rpc.rs: `dispatch_agent`.
use herdr_remote_channel.Prelude.{String, Option, none, some}
use herdr_remote_channel.Errors.{
  CoreError, authorization_required, no_approved_content, Result, ok, err,
}
use herdr_remote_channel.Rpc.{
  Broker, Request, agent_request, trusted_request, method, AgentRequest, status, channels, whoami,
  doctor, audit, inbox, show_approved, draft, wait, AgentResponse, the_status, the_channels,
  the_identity, the_inbox, approved, the_checks, the_audit, drafted, waited,
}

abbrev show : String → Option String → Result CoreError AgentResponse
show message_id none = err (no_approved_content message_id)
show message_id (some text) = ok (approved message_id text)

abbrev or_timeout : Option String → String
or_timeout none = "timeout"
or_timeout (some state) = state

module _ {S : Type 0} (b : Broker S) where
  -- The match on an agent's own request.
  unfoldable pub answer_agent : AgentRequest → S → Result CoreError AgentResponse × S
  answer_agent status s = (ok (the_status (b.channel_status s)), s)
  answer_agent channels s = (ok (the_channels (b.channel_names s)), s)
  answer_agent whoami s = (ok (the_identity ((b.local_identity s).0) ((b.local_identity s).1)), s)
  answer_agent (inbox pending_only) s = (ok (the_inbox (b.inbox_views s pending_only)), s)
  answer_agent (show_approved message_id) s = (show message_id (b.approved_content s message_id), s)
  answer_agent doctor s = (ok (the_checks (b.checks s)), s)
  answer_agent audit s = (ok (the_audit (b.audit_entries s)), s)
  answer_agent (draft recipient text endpoint) s =
      let (draft_id, after) = b.record_draft recipient text endpoint s in
      (ok (drafted draft_id), after)
  answer_agent (wait message_id until) s =
      (ok (waited (or_timeout (b.observe s message_id until))), s)

  unfoldable pub dispatch_agent : Request → S → Result CoreError AgentResponse × S
  unfolding answer_agent method
  dispatch_agent (agent_request request) s = answer_agent request s
  dispatch_agent (trusted_request request) s = (err (authorization_required (method request)), s)
