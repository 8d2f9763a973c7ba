-- ===== src/Rpc/Spent.antt =====
-- crates/hrc-core/src/rpc.rs: a spent authorization, and the requests for a context package.
use herdr_remote_channel.Prelude.{
  str_eq, ◌∙◌, ap, eq_iff, inr, inl, Bool-cases, ◌≢◌, ◌≡◌, refl, String, none, [], ◌∷◌, arith,
}
use herdr_remote_channel.Prelude.BTreeMap.{get-remove, get-insert, BTreeMap, get, remove}
use herdr_remote_channel.Errors.{
  try_then_ok, try_then_any, map_err, protocol, ProtocolError, CoreError, Result, ok, err,
}
use herdr_remote_channel.Rpc.{done, ContextAuthorizationScope, Broker, TrustedResponse}
use herdr_remote_channel.Rpc.Context.{
  consume_context, check_context, issue_context, ContextAuthorizationLedger, ContextAuthorization,
}
use herdr_remote_channel.Rpc.Trusted.{send, preview, Session, after_broker}

module _ (sha256 : String → String) {S : Type 0} (b : Broker S) (token : String) where
  -- The token authorizes nothing.
  unfoldable pub Spent : Session S → Type 0
  Spent st = get token st.contexts.pending ≡ none

  get-remove_absent :
      (k : String) (m : BTreeMap ContextAuthorization)
      → get token m ≡ none
      → get token (remove k m) ≡ none
  unfolding get remove
  get-remove_absent k [] h = refl
  get-remove_absent k ((j, v) ∷ m) h = ground (arith, get-remove_absent k m)

  pub after_broker-Spent :
      (st : Session S) (r : Result CoreError (Unit {0}) × S) (response : TrustedResponse)
      → Spent st
      → Spent ((after_broker sha256 b st r response).1)
  unfolding Spent
  after_broker-Spent st (ok _, s) response h = h
  after_broker-Spent st (err e, s) response h = h

  consume-Spent :
      (k : String) (scope : ContextAuthorizationScope) (now : String)
      (l : ContextAuthorizationLedger)
      → get token l.pending ≡ none
      → get token ((consume_context k scope now l).1.pending) ≡ none
  unfolding consume_context
  consume-Spent k scope now l h =
      try_then_any (λ x. get token x.pending ≡ none) (check_context l k scope now) l _ h
        (λ _ _. get-remove_absent k l.pending h)

  named_ok :
      (drawn : Result ProtocolError String) (k : String)
      → map_err protocol drawn ≡ ok k
      → drawn ≡ ok k
  named_ok (ok a) k h = cc
  named_ok (err e) k h = cc

  pub preview-Spent :
      (drawn : Result ProtocolError String) (recipient package_id now : String) (st : Session S)
      → drawn ≢ ok token
      → Spent st
      → Spent ((preview sha256 b drawn recipient package_id now st).1)
  unfolding preview issue_context Spent
  preview-Spent drawn recipient package_id now st other h =
      try_then_any Spent (b.summarize_context st.broker package_id) st _ h λ summary _.
        try_then_any Spent (b.context_authorization_scope st.broker package_id recipient) st _ h
          λ scope _.
            try_then_any Spent (b.context_authorization_expiry st.broker now) st _ h λ expires_at _.
              try_then_any Spent (map_err protocol drawn) st _ h λ k named.
                elim (Bool-cases (str_eq k token)) [
                  | inl same ↦
                      absurd (other (named_ok drawn k named ∙ ap ok ((eq_iff k token).0 same)))
                  | inr different ↦
                      rw
                        (get-insert k token (record { scope = scope; expires_at = expires_at })
                          st.contexts.pending)
                        (rw different h)
                ]

  pub send-Spent :
      (recipient package_id k now : String) (st : Session S)
      → Spent st
      → Spent ((send sha256 b recipient package_id k now st).1)
  unfolding send Spent
  send-Spent recipient package_id k now st h =
      try_then_any Spent (b.context_authorization_scope st.broker package_id recipient) st _ h
        λ scope _.
          let contexts' = (consume_context k scope now st.contexts).1 in
          try_then_any Spent ((consume_context k scope now st.contexts).0)
            (record st { contexts = contexts' }) _ (consume-Spent k scope now st.contexts h)
            λ _ _.
              after_broker-Spent (record st { contexts = contexts' }) _ done
                (consume-Spent k scope now st.contexts h)

  pub consumed-Spent :
      (scope : ContextAuthorizationScope) (now : String) (l : ContextAuthorizationLedger)
      → (consume_context token scope now l).0 ≡ ok tt
      → get token ((consume_context token scope now l).1.pending) ≡ none
  unfolding consume_context
  consumed-Spent scope now l h =
      try_then_ok (λ x. get token x.pending ≡ none) (check_context l token scope now) l _ tt
        (λ _ _ _. get-remove token l.pending) h
