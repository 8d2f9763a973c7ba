-- ===== src/Gate/Ledger.antt =====
-- An authorization is good for one delivery, of the message that it was issued for.
use Prim.Native.String.{◌++◌ as join}
use herdr_remote_channel.Prelude.{
  ℕ, ◌+◌, ◌≤◌, String, ◌≡◌, ◌⊎◌, true, false, ◌&&◌, List, [], ◌∷◌, contains, str_eq, str_le, eq_iff,
  arith, if◌then◌else◌, eq_refl,
}
use herdr_remote_channel.Errors.{
  CoreError, ok, err, is_ok, edited_content_mismatch, decision_does_not_deliver,
  authorization_mismatch, authorization_expired, authorization_already_used,
}
use herdr_remote_channel.Gate.{
  Decision, keep_in_inbox, decline, edit_differs, QuarantinedMessage, deliver_to_agent,
  deliver_edited, as_str, reaches_an_agent, Authorization, issue, AuthorizationLedger,
  provenance_banner, Delivery, Approval, token_for, deliver, agent_of,
}

module _ (sha256 : String → String) where
  -- The body's digest is the one that an edited delivery names.
  abbrev pub ApprovedBody : Decision → String → Type 0
  ApprovedBody (deliver_edited agent edited_sha256) body = sha256 body ≡ edited_sha256
  ApprovedBody _ body = Unit

  edit_differs_sound :
      (decision : Decision) (body : String)
      → edit_differs sha256 decision body ≡ false
      → ApprovedBody decision body
  edit_differs_sound (deliver_edited agent edited_sha256) body h =
      ground (arith, eq_iff (sha256 body) edited_sha256)
  edit_differs_sound (deliver_to_agent agent) body h = tt
  edit_differs_sound keep_in_inbox body h = tt
  edit_differs_sound (decline reason) body h = tt

  -- What a successful delivery establishes.
  pub record Delivers (a : Authorization) (l : AuthorizationLedger) (m : QuarantinedMessage)
      (p : Approval) (d : Delivery) : Type 0 where
    pub channel : a.channel_id ≡ m.envelope.channel_id
    pub message : a.message_id ≡ m.envelope.message_id
    pub digest : a.ciphertext_sha256 ≡ m.ciphertext_sha256
    pub in_time : str_le a.expires_at p.now ≡ false
    pub reaches : reaches_an_agent a.decision ≡ true
    pub unspent : contains l.spent (token_for sha256 a) ≡ false
    pub edited : ApprovedBody a.decision p.body
    pub framed :
        d.framed
        ≡ join
            (provenance_banner m.sender_principal p.channel_local_name m.envelope.message_id
              p.approved_by)
            p.body
    pub agent : d.recorded.agent ≡ agent_of a.decision

  -- A delivery succeeds only if the authorization names the message's channel, identifier and
  -- ciphertext digest, has not expired, was not used before and is for an agent; an edited body is
  -- the one whose digest was approved. What is delivered is the banner followed by the body.
  pub deliver-Delivers :
      (a : Authorization) (l : AuthorizationLedger) (m : QuarantinedMessage) (p : Approval)
      (d : Delivery)
      → (deliver sha256 a l m p).0 ≡ ok d
      → Delivers a l m p d
  unfolding deliver
  deliver-Delivers a l m p d h = record {
    channel = ground (arith, eq_iff a.channel_id m.envelope.channel_id);
    message = ground (arith, eq_iff a.message_id m.envelope.message_id);
    digest = ground (arith, eq_iff a.ciphertext_sha256 m.ciphertext_sha256);
    in_time = ground arith;
    reaches = ground arith;
    unspent = ground arith;
    edited = edit_differs_sound a.decision p.body (ground arith);
    framed = ground arith;
    agent = ground arith;
  }

  -- One call of `deliver`: its authorization, the message at hand, and what the human approved.
  pub record Attempt : Type 0 where
    pub authorization : Authorization
    pub message : QuarantinedMessage
    pub approval : Approval

  -- How many of the calls, made one after the other, deliver under the token `t`.
  unfoldable pub deliveries : String → AuthorizationLedger → List Attempt → ℕ
  deliveries t l [] = 0
  deliveries t l (x ∷ xs) =
      let (result, l') = deliver sha256 x.authorization l x.message x.approval in
      (if is_ok result && str_eq (token_for sha256 x.authorization) t then 1 else 0)
      + deliveries t l' xs

  spends :
      (t : String) (l : AuthorizationLedger) (x : Attempt)
      → let (result, l') = deliver sha256 x.authorization l x.message x.approval in
        (contains l.spent t ≡ true → contains l'.spent t ≡ true)
        × (is_ok result ≡ true
            → (contains l.spent (token_for sha256 x.authorization) ≡ false)
              × (contains l'.spent (token_for sha256 x.authorization) ≡ true))
  unfolding deliver
  spends t l x = (ground arith, ground (arith, eq_refl (token_for sha256 x.authorization)))

  -- Over any sequence of calls at most one delivers under a given token, and none does if the token
  -- is spent at the start.
  pub deliveries_once :
      (t : String) (l : AuthorizationLedger) (attempts : List Attempt)
      → deliveries t l attempts ≤ (if contains l.spent t then 0 else 1)
  unfolding deliveries
  deliveries_once t l [] = ground arith
  deliveries_once t l (x ∷ xs) =
      let (result, l') = deliver sha256 x.authorization l x.message x.approval in
      ground
        (arith, spends t l x, eq_iff (token_for sha256 x.authorization) t, deliveries_once t l' xs)

  -- The authorization is good for the message, in time and not yet used.
  abbrev pub IsGood : Authorization → AuthorizationLedger → QuarantinedMessage → Approval → Type 0
  IsGood a l m p =
      (a.channel_id ≡ m.envelope.channel_id)
      × (a.message_id ≡ m.envelope.message_id)
      × (a.ciphertext_sha256 ≡ m.ciphertext_sha256)
      × (str_le a.expires_at p.now ≡ false)
      × (contains l.spent (token_for sha256 a) ≡ false)

  -- The decision or the edited body is at fault, and the error names the one that is.
  abbrev pub AtFault : Authorization → Approval → CoreError → Type 0
  AtFault a p e =
      ((reaches_an_agent a.decision ≡ false) × (e ≡ decision_does_not_deliver (as_str a.decision)))
      ⊎ ((edit_differs sha256 a.decision p.body ≡ true) × (e ≡ edited_content_mismatch))

  -- The error of an authorization that is not good.
  abbrev pub NotGood : Authorization → CoreError → Type 0
  NotGood a e =
      (e ≡ authorization_mismatch)
      ⊎ ((e ≡ authorization_expired a.expires_at) ⊎ (e ≡ authorization_already_used))

  -- A delivery is refused in one of two ways. Either the authorization was good for the message and
  -- not yet used, and its decision reaches no agent or the edited body is not the one that was
  -- approved: then the error says which, and the authorization is now spent. Or the error is a
  -- mismatch, the expiry or an earlier use, and the ledger is as it was.
  pub refusal_spends :
      (a : Authorization) (l : AuthorizationLedger) (m : QuarantinedMessage) (p : Approval)
      (e : CoreError)
      → (deliver sha256 a l m p).0 ≡ err e
      → (IsGood a l m p
          × AtFault a p e
          × ((deliver sha256 a l m p).1 ≡ record { spent = token_for sha256 a ∷ l.spent }))
        ⊎ (NotGood a e × ((deliver sha256 a l m p).1 ≡ l))
  unfolding deliver
  refusal_spends a l m p e h = ground (
    arith,
    eq_iff a.channel_id m.envelope.channel_id,
    eq_iff a.message_id m.envelope.message_id,
    eq_iff a.ciphertext_sha256 m.ciphertext_sha256,
  )

  -- An authorization that was issued to deliver a message to an agent, is in time and was not spent
  -- succeeds for that message, and is spent by that.
  pub deliver-issue :
      (m : QuarantinedMessage) (l : AuthorizationLedger) (p : Approval) (agent expires_at : String)
      → str_le expires_at p.now ≡ false
      → contains l.spent (token_for sha256 (issue m (deliver_to_agent agent) expires_at)) ≡ false
      → let (result, l') = deliver sha256 (issue m (deliver_to_agent agent) expires_at) l m p in
        (is_ok result ≡ true)
        × (contains l'.spent (token_for sha256 (issue m (deliver_to_agent agent) expires_at))
            ≡ true)
  unfolding deliver issue
  deliver-issue m l p agent expires_at in_time unspent = ground (
    arith,
    eq_refl m.envelope.channel_id,
    eq_refl m.envelope.message_id,
    eq_refl m.ciphertext_sha256,
    eq_refl (token_for sha256 (issue m (deliver_to_agent agent) expires_at)),
  )
