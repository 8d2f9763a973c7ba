-- ===== src/Delegation.antt =====
-- crates/hrc-core/src/delegation.rs: who may report which state of a delegated task.
pub mod Lifecycle
mod Examples
use herdr_remote_channel.Prelude.{
  String, Bool, true, false, not, Option, none, some, List, [], ◌∷◌, str_eq, if◌then◌else◌,
}
use herdr_remote_channel.Errors.{
  CoreError, not_a_delegation_party, illegal_delegation_transition, wrong_delegation_party, Result,
  ok, err, ok_or, reject_if, try_then, ◌>>=◌, ◌>>◌,
}
use herdr_remote_channel.Protocol.Delegation.{
  DelegationState, requested, accepted, declined, in_progress, needs_input, result_pending_review,
  completed, failed, cancelled, expired, as_str, is_terminal, may_precede,
}

pub data Party : Type 0 where
  the_requester the_assignee : Party

pub record Delegation : Type 0 where
  pub task_id : String
  pub requester : String
  pub assignee : String
  pub state : DelegationState

-- `Delegation::open`.
unfoldable pub request : String → String → String → Delegation
request task_id requester assignee = record {
  task_id = task_id;
  requester = requester;
  assignee = assignee;
  state = requested;
}

unfoldable pub party_of : Delegation → String → Option Party
party_of d principal_id =
    if str_eq principal_id d.assignee
    then some the_assignee
    else if str_eq principal_id d.requester
    then some the_requester
    else none

abbrev is_assignee : Party → Bool
is_assignee the_assignee = true
is_assignee the_requester = false

unfoldable pub may_report : Party → DelegationState → Bool
may_report party accepted = is_assignee party
may_report party declined = is_assignee party
may_report party in_progress = is_assignee party
may_report party needs_input = is_assignee party
may_report party result_pending_review = is_assignee party
may_report party failed = is_assignee party
may_report party cancelled = not (is_assignee party)
may_report party completed = not (is_assignee party)
may_report party requested = false
may_report party expired = false

-- The checks of `apply`, before it writes the state.
unfoldable pub check_report : Delegation → String → DelegationState → Result CoreError (Unit {0})
unfolding party_of may_report may_precede
check_report d reporter next = do
  party ← ok_or (party_of d reporter) (not_a_delegation_party reporter d.task_id)
  reject_if (not (may_precede d.state next))
      (illegal_delegation_transition d.task_id (as_str d.state) (as_str next))
  reject_if (not (may_report party next)) (wrong_delegation_party d.task_id reporter (as_str next))

unfoldable pub apply :
    Delegation → String → DelegationState → Result CoreError (Unit {0}) × Delegation
unfolding check_report
apply d reporter next =
    try_then (check_report d reporter next) d λ _. (ok tt, record d { state = next })

unfoldable pub is_finished : Delegation → Bool
unfolding is_terminal
is_finished d = is_terminal d.state
