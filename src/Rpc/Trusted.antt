-- ===== src/Rpc/Trusted.antt =====
-- crates/hrc-core/src/rpc.rs: `dispatch_trusted`.
use Prim.Native.String.{◌++◌ as join}
use herdr_remote_channel.Prelude.{String, true, false, Option, none, some, List, length}
use herdr_remote_channel.Prelude.Decimal.{decimal}
use herdr_remote_channel.Errors.{
  ProtocolError, CoreError, protocol, publication_refused, alias_refused, no_pending_message,
  Result, ok, err, ok_or, map_err, try_then, ◌>>=◌,
}
use herdr_remote_channel.Visibility.{
  PublicDisclosure, RefusedPublication, disclosure_incomplete, phrase_not_typed,
  confirm_publication,
}
use herdr_remote_channel.Alias.{AliasError, reason_of, check_alias}
use herdr_remote_channel.Gate.{
  QuarantinedMessage, Decision, reaches_an_agent, agent_of, Authorization, issue,
  AuthorizationLedger, Approval, record_decision, deliver,
}
use herdr_remote_channel.Rpc.{
  Broker, WireDecision, wire_edited, decision_of, TrustedRequest, preview_context, send_context,
  preview_pending, approve, approve_join, reject_join, remove_member, set_alias, revoke_device,
  grant_capability, make_repository_public, rollover, TrustedResponse, context_preview,
  pending_message, delivered, done,
}
use herdr_remote_channel.Rpc.Context.{ContextAuthorizationLedger, issue_context, consume_context}

-- What a trusted request can change: the broker and the two ledgers.
pub record Session (S : Type 0) : Type 0 where
  pub broker : S
  pub ledger : AuthorizationLedger
  pub contexts : ContextAuthorizationLedger

abbrev pub or_empty : Option String → String
or_empty none = ""
or_empty (some s) = s

abbrev or_original : Option String → String → String
or_original none original = original
or_original (some text) original = text

abbrev pub edited_text : WireDecision → Option String
edited_text (wire_edited agent text) = some text
edited_text _ = none

abbrev pub publication_reason : RefusedPublication → CoreError
publication_reason (disclosure_incomplete missing) =
    publication_refused
      (join (decimal 1 (length missing)) " of the section 16.4 consequences were not shown")
publication_reason (phrase_not_typed expected) =
    publication_refused (join "the confirmation phrase `" (join expected "` was not typed"))

abbrev alias_reason : AliasError → CoreError
alias_reason refusal = alias_refused (reason_of refusal)

abbrev pub stored_alias : Option String → Result CoreError (Option String)
stored_alias none = ok none
stored_alias (some proposed) =
    map_err alias_reason (check_alias proposed) >>= λ name. ok (some name)

module _ (sha256 : String → String) {S : Type 0} (b : Broker S) where
  -- A `?` on a broker's `&mut self` method, then the response.
  abbrev pub after_broker :
      Session S
      → Result CoreError (Unit {0}) × S
      → TrustedResponse
      → Result CoreError TrustedResponse × Session S
  after_broker st (ok _, s) response = (ok response, record st { broker = s })
  after_broker st (err e, s) response = (err e, record st { broker = s })

  unfoldable pub publish :
      List PublicDisclosure → String → Session S → Result CoreError TrustedResponse × Session S
  publish shown typed st = try_then (b.publication_channel_name st.broker) st λ name.
      try_then
        (map_err publication_reason (confirm_publication name shown typed (b.local_user st.broker)))
        st λ confirmed. after_broker st (b.publish_repository confirmed st.broker) done

  unfoldable pub preview :
      Result ProtocolError String
      → String
      → String
      → String
      → Session S
      → Result CoreError TrustedResponse × Session S
  unfolding issue_context
  preview drawn recipient package_id now st =
      try_then (b.summarize_context st.broker package_id) st λ summary.
        try_then (b.context_authorization_scope st.broker package_id recipient) st λ scope.
          try_then (b.context_authorization_expiry st.broker now) st λ expires_at.
            try_then (map_err protocol drawn) st λ token. (
              ok (context_preview summary token),
              record st { contexts = issue_context token scope expires_at st.contexts },
            )

  unfoldable pub send :
      String → String → String → String → Session S → Result CoreError TrustedResponse × Session S
  unfolding consume_context
  send recipient package_id token now st =
      try_then (b.context_authorization_scope st.broker package_id recipient) st λ scope.
        let (consumed, contexts') = consume_context token scope now st.contexts in
        let spent = record st { contexts = contexts' } in
        try_then consumed spent λ _. after_broker spent (b.deliver_context scope st.broker) done

  unfoldable pub show_pending : String → Session S → Result CoreError TrustedResponse × Session S
  show_pending message_id st = (
    ok_or (b.pending_body st.broker message_id) (no_pending_message message_id) >>= λ body.
        ok (pending_message message_id body),
    st,
  )

  -- `if !decision.reaches_an_agent()`.
  unfoldable pub record_refusal :
      QuarantinedMessage
      → Decision
      → String
      → String
      → Session S
      → Result CoreError TrustedResponse × Session S
  record_refusal message decision message_id now st =
      after_broker st
        (b.record_decision_record
          (record_decision sha256 message decision (or_empty (b.pending_body st.broker message_id))
            (b.local_user st.broker) now)
          st.broker)
        done

  abbrev pub approval_of : S → String → String → Option String → String → Approval
  approval_of s message_id original edited now = record {
    body = or_original edited original;
    original = original;
    channel_local_name = b.channel_local_name s message_id;
    approved_by = b.local_user s;
    now = now;
  }

  -- `agent`, of a decision that reaches one.
  abbrev pub named_agent : Decision → String
  named_agent decision = or_empty (agent_of decision)

  -- The delivery: the authorization is spent, the decision recorded, then the content returned.
  unfoldable pub hand_over :
      Authorization
      → String
      → QuarantinedMessage
      → Approval
      → Session S
      → Result CoreError TrustedResponse × Session S
  unfolding deliver
  hand_over authorization agent message approval st =
      let (result, ledger') = deliver sha256 authorization st.ledger message approval in
      let spent = record st { ledger = ledger' } in
      try_then result spent λ delivery.
        after_broker spent (b.record_decision_record delivery.recorded st.broker)
          (delivered agent delivery.framed)

  unfoldable pub release_to_agent :
      Authorization
      → Decision
      → Option String
      → String
      → String
      → Session S
      → Result CoreError TrustedResponse × Session S
  unfolding hand_over
  release_to_agent authorization decision edited message_id now st =
      try_then (ok_or (b.pending_body st.broker message_id) (no_pending_message message_id)) st
        λ original.
          try_then
            (ok_or (b.pending_quarantined st.broker message_id) (no_pending_message message_id)) st
            λ message.
              hand_over authorization (named_agent decision) message
                (approval_of st.broker message_id original edited now) st

  -- What follows by whether the decision reaches an agent.
  unfoldable pub carry_out :
      QuarantinedMessage
      → Decision
      → Option String
      → String
      → String
      → String
      → Session S
      → Result CoreError TrustedResponse × Session S
  unfolding issue reaches_an_agent record_refusal release_to_agent
  carry_out message decision edited message_id expires_at now st =
      elim (reaches_an_agent decision) [
        | false ↦ record_refusal message decision message_id now st
        | true ↦
            release_to_agent (issue message decision expires_at) decision edited message_id now st
      ]

  unfoldable pub decide :
      String
      → WireDecision
      → String
      → String
      → Session S
      → Result CoreError TrustedResponse × Session S
  unfolding decision_of carry_out
  decide message_id wire expires_at now st =
      try_then (ok_or (b.pending_quarantined st.broker message_id) (no_pending_message message_id))
        st
        λ message.
          carry_out message (decision_of sha256 wire) (edited_text wire) message_id expires_at now
            st

  abbrev applied : TrustedRequest → Session S → Result CoreError TrustedResponse × Session S
  applied request st = after_broker st (b.apply_trusted request st.broker) done

  -- `drawn` is the identifier that a preview's authorization gets.
  unfoldable pub dispatch_trusted :
      Result ProtocolError String
      → TrustedRequest
      → String
      → Session S
      → Result CoreError TrustedResponse × Session S
  unfolding publish preview send show_pending decide
  dispatch_trusted drawn (make_repository_public shown typed) now st = publish shown typed st
  dispatch_trusted drawn (preview_context recipient package_id) now st =
      preview drawn recipient package_id now st
  dispatch_trusted drawn (send_context recipient package_id authorization) now st =
      send recipient package_id authorization now st
  dispatch_trusted drawn (preview_pending message_id) now st = show_pending message_id st
  dispatch_trusted drawn (approve message_id decision expires_at) now st =
      decide message_id decision expires_at now st
  dispatch_trusted drawn (set_alias principal_id display_name) now st =
      try_then (stored_alias display_name) st λ name. applied (set_alias principal_id name) st
  dispatch_trusted drawn (approve_join request_id) now st = applied (approve_join request_id) st
  dispatch_trusted drawn (reject_join request_id) now st = applied (reject_join request_id) st
  dispatch_trusted drawn (remove_member principal_id) now st =
      applied (remove_member principal_id) st
  dispatch_trusted drawn (revoke_device device_id) now st = applied (revoke_device device_id) st
  dispatch_trusted drawn (grant_capability principal_id capability) now st =
      applied (grant_capability principal_id capability) st
  dispatch_trusted drawn rollover now st = applied rollover st
