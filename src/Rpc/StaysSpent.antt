-- ===== src/Rpc/StaysSpent.antt =====
-- crates/hrc-core/src/rpc.rs: no trusted request gives a spent authorization back.
use herdr_remote_channel.Gate.{
  record_decision, QuarantinedMessage, Decision, Approval, deliver, issue, Authorization,
  reaches_an_agent,
}
use herdr_remote_channel.Prelude.{Option, false, inr, inl, Bool-cases, ◌≢◌, ◌≡◌, refl, String}
use herdr_remote_channel.Errors.{
  try_then_ok, is_ok, Result-cases, no_pending_message, ok_or, try_then_any, ProtocolError, Result,
  ok,
}
use herdr_remote_channel.Rpc.{
  delivered, done, rollover, make_repository_public, grant_capability, revoke_device, set_alias,
  remove_member, reject_join, approve_join, approve, preview_pending, send_context, preview_context,
  TrustedRequest, decision_of, WireDecision, Broker, TrustedResponse,
}
use herdr_remote_channel.Rpc.Context.{consume_context, check_context}
use herdr_remote_channel.Rpc.Trusted.{
  edited_text, carry_out, or_empty, hand_over, release_to_agent, record_refusal, dispatch_trusted,
  decide, show_pending, send, publish, Session, after_broker,
}
use herdr_remote_channel.Rpc.Spent.{
  Spent, after_broker-Spent, preview-Spent, send-Spent, consumed-Spent,
}

module _ (sha256 : String → String) {S : Type 0} (b : Broker S) (token : String) where
  record_refusal-Spent :
      (message : QuarantinedMessage) (decision : Decision) (message_id now : String)
      (st : Session S)
      → Spent sha256 b token st
      → Spent sha256 b token ((record_refusal sha256 b message decision message_id now st).1)
  unfolding record_refusal
  record_refusal-Spent message decision message_id now st h =
      after_broker-Spent sha256 b token st
        (b.record_decision_record
          (record_decision sha256 message decision (or_empty (b.pending_body st.broker message_id))
            (b.local_user st.broker) now)
          st.broker)
        done h

  applied-Spent :
      (request : TrustedRequest) (st : Session S)
      → Spent sha256 b token st
      → Spent sha256 b token ((after_broker sha256 b st (b.apply_trusted request st.broker) done).1)
  applied-Spent request st h =
      after_broker-Spent sha256 b token st (b.apply_trusted request st.broker) done h

  hand_over-Spent :
      (a : Authorization) (agent : String) (message : QuarantinedMessage) (approval : Approval)
      (st : Session S)
      → Spent sha256 b token st
      → Spent sha256 b token ((hand_over sha256 b a agent message approval st).1)
  unfolding hand_over Spent
  hand_over-Spent a agent message approval st h =
      let r = deliver sha256 a st.ledger message approval in
      let after = record st { ledger = r.1 } in
      try_then_any (Spent sha256 b token) (r.0) after _ h λ delivery _.
        after_broker-Spent sha256 b token after
          (b.record_decision_record delivery.recorded st.broker) (delivered agent delivery.framed) h

  carry_out-Spent :
      (message : QuarantinedMessage) (decision : Decision) (edited : Option String)
      (message_id expires_at now : String) (st : Session S)
      → Spent sha256 b token st
      → Spent sha256 b token
          ((carry_out sha256 b message decision edited message_id expires_at now st).1)
  unfolding carry_out release_to_agent
  carry_out-Spent message decision edited message_id expires_at now st h =
      elim (Bool-cases (reaches_an_agent decision)) [
        | inr kept ↦
            rw (kept, carry_out) (record_refusal-Spent message decision message_id now st h)
        | inl reaches ↦
            rw (reaches, carry_out)
              (try_then_any (Spent sha256 b token)
                (ok_or (b.pending_body st.broker message_id) (no_pending_message message_id)) st _ h
                λ original _.
                  try_then_any (Spent sha256 b token)
                    (ok_or (b.pending_quarantined st.broker message_id)
                      (no_pending_message message_id))
                    st _ h
                    λ again _. hand_over-Spent (issue message decision expires_at) _ again _ st h)
      ]

  decide-Spent :
      (message_id : String) (wire : WireDecision) (expires_at now : String) (st : Session S)
      → Spent sha256 b token st
      → Spent sha256 b token ((decide sha256 b message_id wire expires_at now st).1)
  unfolding decide
  decide-Spent message_id wire expires_at now st h =
      try_then_any (Spent sha256 b token)
        (ok_or (b.pending_quarantined st.broker message_id) (no_pending_message message_id)) st _ h
        λ message _.
          carry_out-Spent message (decision_of sha256 wire) (edited_text wire) message_id expires_at
            now st h

  pub dispatch-Spent :
      (drawn : Result ProtocolError String) (request : TrustedRequest) (now : String)
      (st : Session S)
      → drawn ≢ ok token
      → Spent sha256 b token st
      → Spent sha256 b token ((dispatch_trusted sha256 b drawn request now st).1)
  unfolding dispatch_trusted publish show_pending
  dispatch-Spent drawn (preview_context r p) now st other h =
      preview-Spent sha256 b token drawn r p now st other h
  dispatch-Spent drawn (send_context r p k) now st other h =
      send-Spent sha256 b token r p k now st h
  dispatch-Spent drawn (preview_pending id) now st other h = h
  dispatch-Spent drawn (approve id wire expires_at) now st other h =
      decide-Spent id wire expires_at now st h
  dispatch-Spent drawn (make_repository_public shown typed) now st other h =
      try_then_any (Spent sha256 b token) (b.publication_channel_name st.broker) st _ h λ name _.
        try_then_any (Spent sha256 b token) _ st _ h λ confirmed _.
          after_broker-Spent sha256 b token st (b.publish_repository confirmed st.broker) done h
  dispatch-Spent drawn (set_alias id name) now st other h =
      try_then_any (Spent sha256 b token) _ st _ h
        λ stored _. applied-Spent (set_alias id stored) st h
  dispatch-Spent drawn (approve_join id) now st other h = applied-Spent (approve_join id) st h
  dispatch-Spent drawn (reject_join id) now st other h = applied-Spent (reject_join id) st h
  dispatch-Spent drawn (remove_member id) now st other h = applied-Spent (remove_member id) st h
  dispatch-Spent drawn (revoke_device id) now st other h = applied-Spent (revoke_device id) st h
  dispatch-Spent drawn (grant_capability id c) now st other h =
      applied-Spent (grant_capability id c) st h
  dispatch-Spent drawn rollover now st other h = applied-Spent rollover st h

  -- A refused token: no broker is called and nothing changes.
  pub refused-Spent :
      (drawn : Result ProtocolError String) (recipient package_id now : String) (st : Session S)
      → Spent sha256 b token st
      → (is_ok
            ((dispatch_trusted sha256 b drawn (send_context recipient package_id token) now st).0)
          ≡ false)
        × ((dispatch_trusted sha256 b drawn (send_context recipient package_id token) now st).1
            ≡ st)
  unfolding dispatch_trusted send consume_context check_context Spent
  refused-Spent drawn recipient package_id now st h =
      elim (Result-cases (b.context_authorization_scope st.broker package_id recipient)) [
        | inl (scope, e) ↦ rw e (rw h (refl, refl))
        | inr (error, e) ↦ rw e (refl, refl)
      ]

  -- A successful send leaves its token spent.
  pub sent-Spent :
      (drawn : Result ProtocolError String) (recipient package_id now : String) (st : Session S)
      (response : TrustedResponse)
      → (dispatch_trusted sha256 b drawn (send_context recipient package_id token) now st).0
        ≡ ok response
      → Spent sha256 b token
          ((dispatch_trusted sha256 b drawn (send_context recipient package_id token) now st).1)
  unfolding dispatch_trusted send consume_context Spent
  sent-Spent drawn recipient package_id now st response h =
      try_then_ok (Spent sha256 b token)
        (b.context_authorization_scope st.broker package_id recipient) st _ response
        (λ scope _ h2.
          let c = consume_context token scope now st.contexts in
          let after = record st { contexts = c.1 } in
          try_then_ok (Spent sha256 b token) (c.0) after _ response
            (λ _ consumed h3.
              after_broker-Spent sha256 b token after (b.deliver_context scope st.broker) done
                (consumed-Spent sha256 b token scope now st.contexts consumed))
            h2)
        h
