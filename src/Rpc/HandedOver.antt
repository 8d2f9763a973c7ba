-- ===== src/Rpc/HandedOver.antt =====
-- crates/hrc-core/src/rpc.rs: what an approval hands over, and what stands behind it.
use mathlib.Core.Path.{subst}
use herdr_remote_channel.Prelude.{
  ◌≢◌, ◌≡◌, refl, sym, ap, ◌∙◌, inl, inr, String, true, Option, none, some, Bool-cases,
}
use herdr_remote_channel.Errors.{CoreError, no_pending_message, Result, ok, err, ok_or, try_then_ok}
use herdr_remote_channel.Gate.{
  QuarantinedMessage, Decision, deliver_to_agent, deliver_edited, keep_in_inbox, decline,
  reaches_an_agent, agent_of, issue, Delivery, deliver,
}
use herdr_remote_channel.Gate.Ledger.{Delivers, deliver-Delivers}
use herdr_remote_channel.Rpc.{
  Broker, WireDecision, decision_of, TrustedRequest, approve, TrustedResponse, delivered, done,
}
use herdr_remote_channel.Rpc.Trusted.{
  Session, edited_text, after_broker, record_refusal, approval_of, named_agent, hand_over,
  release_to_agent, carry_out,
}

pub ok_or-some : {A : Type 0} (o : Option A) (e : CoreError) (a : A) → ok_or o e ≡ ok a → o ≡ some a
ok_or-some none e a h = cc
ok_or-some (some x) e a h = cc

module _ (sha256 : String → String) {S : Type 0} (b : Broker S) where
  -- What stands behind a response that hands content to an agent: an approval of a message that was
  -- pending, a delivery that the gate allowed for it, and its record, which the broker had accepted.
  pub record HandedOver (request : TrustedRequest) (now : String) (st st' : Session S)
      (agent framed : String) : Type 0 where
    pub message_id : String
    pub wire : WireDecision
    pub expires_at : String
    pub is_approval : request ≡ approve message_id wire expires_at
    pub message : QuarantinedMessage
    pub was_pending : b.pending_quarantined st.broker message_id ≡ some message
    pub original : String
    pub was_held : b.pending_body st.broker message_id ≡ some original
    pub delivery : Delivery
    pub allowed :
        Delivers sha256
          (issue message (decision_of sha256 wire) expires_at)
          st.ledger
          message
          (approval_of sha256 b st.broker message_id original (edited_text wire) now)
          delivery
    pub is_framed : framed ≡ delivery.framed
    pub recorded : b.record_decision_record delivery.recorded st.broker ≡ (ok tt, st'.broker)
    pub is_named : agent_of (decision_of sha256 wire) ≡ some agent

  broker_response :
      (st : Session S) (r : Result CoreError (Unit {0}) × S) (response x : TrustedResponse)
      → (after_broker sha256 b st r response).0 ≡ ok x
      → (x ≡ response) × (r ≡ (ok tt, (after_broker sha256 b st r response).1.broker))
  broker_response st (ok tt, s) response x h = (cc, refl)
  broker_response st (err e, s) response x h = cc

  delivered_not_done : (agent framed : String) → delivered agent framed ≢ done
  delivered_not_done agent framed = λ p. cc

  -- A request that ends in `Done` hands nothing over.
  pub not_done :
      (st : Session S) (r : Result CoreError (Unit {0}) × S) (agent framed : String)
      → (after_broker sha256 b st r done).0 ≢ ok (delivered agent framed)
  not_done st r agent framed h =
      delivered_not_done agent framed ((broker_response st r done (delivered agent framed) h).0)

  named_reaches :
      (decision : Decision)
      → reaches_an_agent decision ≡ true
      → agent_of decision ≡ some (named_agent sha256 b decision)
  unfolding reaches_an_agent
  named_reaches (deliver_to_agent agent) h = refl
  named_reaches (deliver_edited agent digest) h = refl
  named_reaches keep_in_inbox h = cc
  named_reaches (decline reason) h = cc

  same_message : (x y : QuarantinedMessage) → some x ≡ some y → x ≡ y
  same_message x y h = cc

  same_agent :
      (agent framed agent' framed' : String)
      → delivered agent framed ≡ delivered agent' framed'
      → agent' ≡ agent
  same_agent agent framed agent' framed' h = cc

  -- The parts of a delivery, by what the broker answered.
  module _ (message_id : String) (wire : WireDecision) (expires_at now : String) (st : Session S)
      (agent framed : String) where
    abbrev Handed : Session S → Type 0
    Handed st' = HandedOver (approve message_id wire expires_at) now st st' agent framed

    hand_over-HandedOver :
        (message : QuarantinedMessage) (original : String)
        → b.pending_quarantined st.broker message_id ≡ some message
        → b.pending_body st.broker message_id ≡ some original
        → reaches_an_agent (decision_of sha256 wire) ≡ true
        → (hand_over sha256 b
            (issue message (decision_of sha256 wire) expires_at)
            (named_agent sha256 b (decision_of sha256 wire))
            message
            (approval_of sha256 b st.broker message_id original (edited_text wire) now)
            st).0
          ≡ ok (delivered agent framed)
        → Handed (
            (hand_over sha256 b
              (issue message (decision_of sha256 wire) expires_at)
              (named_agent sha256 b (decision_of sha256 wire))
              message
              (approval_of sha256 b st.broker message_id original (edited_text wire) now)
              st).1)
    unfolding hand_over
    hand_over-HandedOver message original pend held reaches h =
        let a = issue message (decision_of sha256 wire) expires_at in
        let approval = approval_of sha256 b st.broker message_id original (edited_text wire) now in
        let r = deliver sha256 a st.ledger message approval in
        let spent = record st { ledger = r.1 } in
        try_then_ok Handed (r.0) spent _ (delivered agent framed)
          (λ delivery allowed h2.
            let answer = b.record_decision_record delivery.recorded st.broker in
            let (same, answered) =
              broker_response spent answer
                (delivered (named_agent sha256 b (decision_of sha256 wire)) delivery.framed)
                (delivered agent framed) h2 in
            record {
              message_id = message_id;
              wire = wire;
              expires_at = expires_at;
              is_approval = refl;
              message = message;
              was_pending = pend;
              original = original;
              was_held = held;
              delivery = delivery;
              allowed = deliver-Delivers sha256 a st.ledger message approval delivery allowed;
              is_framed = cc;
              recorded = answered;
              is_named =
                  named_reaches (decision_of sha256 wire) reaches
                  ∙ ap some (same_agent _ _ _ _ same);
            })
          h

    pub carry_out-HandedOver :
        (message : QuarantinedMessage)
        → (carry_out sha256 b message
            (decision_of sha256 wire)
            (edited_text wire)
            message_id
            expires_at
            now
            st).0
          ≡ ok (delivered agent framed)
        → b.pending_quarantined st.broker message_id ≡ some message
        → Handed (
            (carry_out sha256 b message
              (decision_of sha256 wire)
              (edited_text wire)
              message_id
              expires_at
              now
              st).1)
    unfolding carry_out release_to_agent record_refusal
    carry_out-HandedOver message h pend =
        elim (Bool-cases (reaches_an_agent (decision_of sha256 wire))) [
          | inr kept ↦ absurd (not_done st _ agent framed (rw (kept, carry_out) at h))
          | inl reaches ↦
              rw (reaches, carry_out)
                (try_then_ok Handed
                  (ok_or (b.pending_body st.broker message_id) (no_pending_message message_id)) st _
                  (delivered agent framed)
                  (λ original held h2.
                    try_then_ok Handed
                      (ok_or (b.pending_quarantined st.broker message_id)
                        (no_pending_message message_id))
                      st _ (delivered agent framed)
                      (λ again pend2 h3.
                        subst
                          (λ x.
                            (hand_over sha256 b (issue message (decision_of sha256 wire) expires_at)
                                (named_agent sha256 b (decision_of sha256 wire)) x
                                (approval_of sha256 b st.broker message_id original
                                  (edited_text wire) now)
                                st).0
                              ≡ ok (delivered agent framed)
                            → Handed (
                                (hand_over sha256 b
                                  (issue message (decision_of sha256 wire) expires_at)
                                  (named_agent sha256 b (decision_of sha256 wire)) x
                                  (approval_of sha256 b st.broker message_id original
                                    (edited_text wire) now)
                                  st).1))
                          (same_message message again (sym pend ∙ ok_or-some _ _ again pend2))
                          (hand_over-HandedOver message original pend (ok_or-some _ _ original held)
                            reaches)
                          h3)
                      h2)
                  (rw (reaches, carry_out) at h))
        ]
