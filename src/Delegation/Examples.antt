-- ===== src/Delegation/Examples.antt =====
-- Tests of the delegation lifecycle, and its theorems at a concrete task.
use mathlib.Core.List.{Memᴰ}
use herdr_remote_channel.Prelude.{◌≡◌, refl, List, [], ◌∷◌}
use herdr_remote_channel.Protocol.Kind
use herdr_remote_channel.Protocol.Delegation.{
  accepted, in_progress, result_pending_review, completed, failed, requested, validate_as,
}
use herdr_remote_channel.Errors.{ok, err, derived_mismatch}
use herdr_remote_channel.Delegation.{Delegation, request, apply}
use herdr_remote_channel.Delegation.Lifecycle.{Report, by, run, completed_needs_both}

abbrev reports : List Report
reports =
    by "bob" accepted
    ∷ by "alice" completed
    ∷ by "bob" in_progress
    ∷ by "eve" failed
    ∷ by "bob" result_pending_review
    ∷ by "bob" completed
    ∷ by "alice" completed
    ∷ []

abbrev finished : Delegation
finished = run (request "t" "alice" "bob") reports

completed_needs_both_example :
    Memᴰ (by "bob" accepted) reports
    × Memᴰ (by "bob" result_pending_review) reports
    × Memᴰ (by "alice" completed) reports
unfolding run request apply
completed_needs_both_example = completed_needs_both "t" "alice" "bob" reports refl

kinds_agree :
    (validate_as
        (record { task_id = "t"; state = accepted; note = "" })
        Kind.MessageKind.task_accept
      ≡ ok tt)
    × (validate_as (record { task_id = "t"; state = requested; note = "" }) Kind.MessageKind.cancel
        ≡ err (derived_mismatch "state"))
unfolding validate_as
kinds_agree = (refl, refl)
