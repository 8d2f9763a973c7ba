-- ===== src/Rpc/Single.antt =====
-- crates/hrc-core/src/rpc.rs: an authorization sends one context package, once.
use herdr_remote_channel.Prelude.{List, All, false, ◌≢◌, ◌≡◌, String, [], ◌∷◌}
use herdr_remote_channel.Errors.{is_ok, ProtocolError, Result, ok}
use herdr_remote_channel.Rpc.{send_context, TrustedRequest, Broker, TrustedResponse}
use herdr_remote_channel.Rpc.Trusted.{dispatch_trusted, Session}
use herdr_remote_channel.Rpc.Spent.{Spent}
use herdr_remote_channel.Rpc.StaysSpent.{dispatch-Spent, refused-Spent, sent-Spent}

-- One request of the trusted interface, with the identifier drawn for it and its time.
pub record Call : Type 0 where
  pub drawn : Result ProtocolError String
  pub request : TrustedRequest
  pub now : String

module _ (sha256 : String → String) {S : Type 0} (b : Broker S) where
  -- The session after the requests, made one after the other.
  unfoldable pub session_after : List Call → Session S → Session S
  unfolding dispatch_trusted
  session_after [] st = st
  session_after (c ∷ cs) st =
      session_after cs ((dispatch_trusted sha256 b c.drawn c.request c.now st).1)

  -- None of the requests draws the identifier.
  abbrev pub Fresh : String → List Call → Type 0
  Fresh token calls = All (λ c. c.drawn ≢ ok token) calls

  session_after-Spent :
      (token : String) (calls : List Call) (st : Session S)
      → Fresh token calls
      → Spent sha256 b token st
      → Spent sha256 b token (session_after calls st)
  unfolding session_after
  session_after-Spent token [] st fresh h = h
  session_after-Spent token (c ∷ cs) st fresh h =
      session_after-Spent token cs ((dispatch_trusted sha256 b c.drawn c.request c.now st).1)
        (fresh.1) (dispatch-Spent sha256 b token c.drawn c.request c.now st (fresh.0) h)

  -- An authorization to send a context package works once: after a request that used it succeeded,
  -- and any further requests of the trusted interface of which none draws its identifier again, a
  -- request that names it is refused, for whatever recipient and package, and changes nothing.
  pub dispatch_trusted_once :
      (token recipient package_id now : String) (drawn : Result ProtocolError String)
      (st : Session S) (response : TrustedResponse) (calls : List Call)
      (other_recipient other_package later : String)
      → (dispatch_trusted sha256 b drawn (send_context recipient package_id token) now st).0
        ≡ ok response
      → Fresh token calls
      → let after =
          session_after calls (
            (dispatch_trusted sha256 b drawn (send_context recipient package_id token) now st).1) in
        (is_ok (
            (dispatch_trusted sha256 b drawn
              (send_context other_recipient other_package token)
              later
              after).0)
          ≡ false)
        × ((dispatch_trusted sha256 b drawn
              (send_context other_recipient other_package token)
              later
              after).1
            ≡ after)
  dispatch_trusted_once token recipient package_id now drawn st response calls r p later sent
        fresh =
      refused-Spent sha256 b token drawn r p later
        (session_after calls
          ((dispatch_trusted sha256 b drawn (send_context recipient package_id token) now st).1))
        (session_after-Spent token calls _ fresh
          (sent-Spent sha256 b token drawn recipient package_id now st response sent))
