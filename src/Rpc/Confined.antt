-- ===== src/Rpc/Confined.antt =====
-- crates/hrc-core/src/rpc.rs: what an agent can bring about through `dispatch_agent`.
use herdr_remote_channel.Prelude.{◌≡◌, refl, ◌∙◌, String, Option, List, [], ◌∷◌}
use herdr_remote_channel.Errors.{CoreError, authorization_required, Result, err}
use herdr_remote_channel.Rpc.{
  Broker, Request, agent_request, trusted_request, method, AgentRequest, status, channels, whoami,
  doctor, audit, inbox, show_approved, draft, wait, AgentResponse,
}
use herdr_remote_channel.Rpc.Agent.{answer_agent, dispatch_agent}

-- The answer that a request must get, whatever the broker holds.
abbrev pub Answered : Request → Result CoreError AgentResponse → Type 0
Answered (trusted_request request) answer = answer ≡ err (authorization_required (method request))
Answered (agent_request request) answer = Unit

-- The answers to the requests, one for one.
abbrev pub AllAnswered : List Request → List (Result CoreError AgentResponse) → Type 0
AllAnswered [] [] = Unit
AllAnswered (r ∷ rs) (a ∷ answers) = Answered r a × AllAnswered rs answers
AllAnswered _ _ = ⊥

module _ {S : Type 0} (b : Broker S) where
  -- An agent's requests, answered one after the other.
  unfoldable pub dispatch_each : List Request → S → List (Result CoreError AgentResponse) × S
  unfolding dispatch_agent
  dispatch_each [] s = ([], s)
  dispatch_each (r ∷ rs) s =
      let (answer, after) = dispatch_agent b r s in
      let (answers, last) = dispatch_each rs after in (answer ∷ answers, last)

module _ {S X : Type 0} (b : Broker S) (protected : S → X)
    (drafts_keep : (recipient text : String) (endpoint : Option String) (s : S)
      → protected ((b.record_draft recipient text endpoint s).1) ≡ protected s) where
  answer_agent_confined :
      (request : AgentRequest) (s : S) → protected ((answer_agent b request s).1) ≡ protected s
  unfolding answer_agent
  answer_agent_confined status s = refl
  answer_agent_confined channels s = refl
  answer_agent_confined whoami s = refl
  answer_agent_confined doctor s = refl
  answer_agent_confined audit s = refl
  answer_agent_confined (inbox pending_only) s = refl
  answer_agent_confined (show_approved message_id) s = refl
  answer_agent_confined (draft recipient text endpoint) s = drafts_keep recipient text endpoint s
  answer_agent_confined (wait message_id until) s = refl

  -- Whatever an agent asks, in any order, nothing of the broker's state changes but what saving a
  -- draft changes, and every request that is for the trusted interface is refused as such.
  pub dispatch_each_confined :
      (rs : List Request) (s : S)
      → (protected ((dispatch_each b rs s).1) ≡ protected s)
        × AllAnswered rs ((dispatch_each b rs s).0)
  unfolding dispatch_each dispatch_agent
  dispatch_each_confined [] s = (refl, tt)
  dispatch_each_confined (agent_request r ∷ rs) s =
      let rest = dispatch_each_confined rs ((answer_agent b r s).1) in
      (rest.0 ∙ answer_agent_confined r s, (tt, rest.1))
  dispatch_each_confined (trusted_request r ∷ rs) s =
      let rest = dispatch_each_confined rs s in (rest.0, (refl, rest.1))
