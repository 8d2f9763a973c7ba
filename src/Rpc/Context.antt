-- ===== src/Rpc/Context.antt =====
-- crates/hrc-core/src/rpc.rs: one-time authorizations for sending a context package.
use herdr_remote_channel.Prelude.{String, Bool, not, ◌&&◌, ◌||◌, str_eq, str_le}
use herdr_remote_channel.Prelude.BTreeMap.{BTreeMap, get, insert, remove}
use herdr_remote_channel.Errors.{
  CoreError, authorization_mismatch, authorization_expired, Result, ok, ok_or, reject_if, try_then,
  ◌>>=◌, ◌>>◌,
}
use herdr_remote_channel.Rpc.{ContextAuthorizationScope}

pub record ContextAuthorization : Type 0 where
  pub scope : ContextAuthorizationScope
  pub expires_at : String

pub record ContextAuthorizationLedger : Type 0 where
  pub pending : BTreeMap ContextAuthorization

-- The derived `==`.
unfoldable pub same_scope : ContextAuthorizationScope → ContextAuthorizationScope → Bool
same_scope a b =
    str_eq a.channel_id b.channel_id
    && str_eq a.package_id b.package_id
    && str_eq a.digest b.digest
    && str_eq a.recipient b.recipient
    && str_eq a.action b.action

unfoldable pub validate :
    ContextAuthorization → ContextAuthorizationScope → String → Result CoreError (Unit {0})
unfolding same_scope
validate a scope now = do
  reject_if (not (same_scope a.scope scope) || not (str_eq a.scope.action "send_context"))
      authorization_mismatch
  reject_if (str_le a.expires_at now) (authorization_expired a.expires_at)

-- `issue`, with the token on which its loop ends: the first drawn identifier that is not pending.
unfoldable pub issue_context :
    String
    → ContextAuthorizationScope
    → String
    → ContextAuthorizationLedger
    → ContextAuthorizationLedger
issue_context token scope expires_at ledger = record {
  pending = insert token (record { scope = scope; expires_at = expires_at }) ledger.pending;
}

-- The checks of `consume`.
unfoldable pub check_context :
    ContextAuthorizationLedger
    → String
    → ContextAuthorizationScope
    → String
    → Result CoreError (Unit {0})
unfolding validate
check_context ledger token scope now = do
  authorization ← ok_or (get token ledger.pending) authorization_mismatch
  validate authorization scope now

unfoldable pub consume_context :
    String
    → ContextAuthorizationScope
    → String
    → ContextAuthorizationLedger
    → Result CoreError (Unit {0}) × ContextAuthorizationLedger
unfolding check_context
consume_context token scope now ledger =
    try_then (check_context ledger token scope now) ledger
      λ _. (ok tt, record { pending = remove token ledger.pending })
