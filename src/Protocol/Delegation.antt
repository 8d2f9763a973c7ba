-- ===== src/Protocol/Delegation.antt =====
-- crates/hrc-protocol/src/delegation.rs: the states of a delegated task, and the bodies that report
-- them.
use Prim.Native.String.{len}
use herdr_remote_channel.Prelude.{
  ℕ, ◌*◌, String, Bool, true, false, not, ◌&&◌, ◌||◌, Option, List, [], ◌∷◌, length, find, str_eq,
  ltb, ◌==◌, if◌then◌else◌,
}
use herdr_remote_channel.Errors.{
  ProtocolError, hex, derived_mismatch, message_too_large, Result, ok, reject_if, ◌>>◌,
}
use herdr_remote_channel.Protocol.Canonical.{bytes_of, all_lower_hex}
use herdr_remote_channel.Protocol.Kind.{MessageKind}
use herdr_remote_channel.Protocol.Text.{bounded}

pub data DelegationState : Type 0 where
  requested accepted declined in_progress needs_input result_pending_review completed failed
        cancelled expired :
      DelegationState

pub DelegationState-discrete : Discrete DelegationState
DelegationState-discrete = hlevel

abbrev pub as_str : DelegationState → String
as_str requested = "requested"
as_str accepted = "accepted"
as_str declined = "declined"
as_str in_progress = "in_progress"
as_str needs_input = "needs_input"
as_str result_pending_review = "result_pending_review"
as_str completed = "completed"
as_str failed = "failed"
as_str cancelled = "cancelled"
as_str expired = "expired"

abbrev pub all : List DelegationState
all =
    requested ∷ accepted ∷ declined ∷ in_progress ∷ needs_input ∷ result_pending_review ∷ completed
    ∷ failed ∷ cancelled ∷ expired ∷ []

unfoldable pub parse : String → Option DelegationState
parse value = find (λ state. str_eq (as_str state) value) all

unfoldable pub is_terminal : DelegationState → Bool
is_terminal declined = true
is_terminal completed = true
is_terminal failed = true
is_terminal cancelled = true
is_terminal expired = true
is_terminal _ = false

-- The `match` of `may_precede`, by the states that it lists.
abbrev from_requested : DelegationState → Bool
from_requested accepted = true
from_requested declined = true
from_requested cancelled = true
from_requested expired = true
from_requested _ = false

abbrev from_live : DelegationState → Bool
from_live in_progress = true
from_live needs_input = true
from_live result_pending_review = true
from_live failed = true
from_live cancelled = true
from_live expired = true
from_live _ = false

abbrev from_review : DelegationState → Bool
from_review completed = true
from_review failed = true
from_review cancelled = true
from_review expired = true
from_review _ = false

abbrev successors : DelegationState → DelegationState → Bool
successors requested next = from_requested next
successors accepted next = from_live next
successors in_progress next = from_live next
successors needs_input next = from_live next
successors result_pending_review next = from_review next
successors _ next = false

unfoldable pub may_precede : DelegationState → DelegationState → Bool
unfolding is_terminal
may_precede state next = if is_terminal state then false else successors state next

pub record ProgressBody : Type 0 where
  pub task_id : String
  pub state : DelegationState
  pub note : String

abbrev pub is_cancelled : DelegationState → Bool
is_cancelled cancelled = true
is_cancelled _ = false

unfoldable pub validate_progress : ProgressBody → Result ProtocolError (Unit {0})
unfolding bounded is_terminal
validate_progress body = do
  bounded "taskId" body.task_id true
  bounded "note" body.note false
  reject_if (is_terminal body.state && not (is_cancelled body.state)) (derived_mismatch "state")

abbrev agrees : MessageKind → DelegationState → Bool
agrees MessageKind.task_accept accepted = true
agrees MessageKind.task_decline declined = true
agrees MessageKind.cancel cancelled = true
agrees _ _ = false

unfoldable pub validate_as : ProgressBody → MessageKind → Result ProtocolError (Unit {0})
unfolding validate_progress
validate_as body kind = do
  bounded "taskId" body.task_id true
  bounded "note" body.note false
  elim kind [
    | MessageKind.progress ↦ validate_progress body
    | other ↦ reject_if (not (agrees other body.state)) (derived_mismatch "state")
  ]

pub record Reference : Type 0 where
  pub kind : String
  pub id : String

unfoldable pub validate_reference : Reference → Result ProtocolError (Unit {0})
unfolding bounded all_lower_hex
validate_reference reference = do
  let expected_bytes : ℕ = if len reference.id == 64 then 32 else 20
  bounded "references.kind" reference.kind true
  bounded "references.id" reference.id true
  reject_if
      (str_eq reference.kind "commit"
        && (not (all_lower_hex (bytes_of reference.id))
            || not (len reference.id == expected_bytes * 2)))
      (hex "references.id" expected_bytes)

unfoldable pub validate_references : List Reference → Result ProtocolError (Unit {0})
unfolding validate_reference
validate_references [] = ok tt
validate_references (x ∷ xs) = validate_reference x >> validate_references xs

abbrev pub max_references : ℕ
max_references = 16

pub record ResultBody : Type 0 where
  pub task_id : String
  pub state : DelegationState
  pub summary : String
  pub context_id : Option String
  pub references : List Reference

abbrev pub is_reportable_result : DelegationState → Bool
is_reportable_result result_pending_review = true
is_reportable_result failed = true
is_reportable_result _ = false

unfoldable pub validate_result : ResultBody → Result ProtocolError (Unit {0})
unfolding validate_references
validate_result body = do
  bounded "taskId" body.task_id true
  bounded "summary" body.summary true
  reject_if (not (is_reportable_result body.state)) (derived_mismatch "state")
  reject_if (ltb max_references (length body.references))
      (message_too_large (length body.references) max_references)
  validate_references body.references
