-- ===== src/Delegation/Lifecycle.antt =====
-- What any sequence of reports, by anyone and in any order, can do to a delegated task.
use mathlib.Core.List.{Memᴰ}
use herdr_remote_channel.Prelude.{
  String, ◌≡◌, ◌≢◌, refl, sym, ◌⊎◌, inl, inr, Bool, true, false, List, [], ◌∷◌, eq_iff, arith,
}
use herdr_remote_channel.Protocol.Delegation.{
  DelegationState, accepted, in_progress, needs_input, result_pending_review, completed, failed,
  cancelled,
}
use herdr_remote_channel.Delegation.{Delegation, request, apply, is_finished}

abbrev pub Report : Type 0
Report = String × DelegationState

abbrev pub by : String → DelegationState → Report
by reporter next = (reporter, next)

-- A refused report leaves the task as it was, so the reader goes on with the next.
unfoldable pub run : Delegation → List Report → Delegation
run d [] = d
run d ((reporter, next) ∷ rest) = run (apply d reporter next).1 rest

module _ (requester assignee : String) (flag : DelegationState → Bool) (report : Report)
    (step : (d : Delegation) (reporter : String) (next : DelegationState)
      → d.requester ≡ requester
      → d.assignee ≡ assignee
      → flag d.state ≡ true
      → (by reporter next ≡ report) ⊎ (flag (apply d reporter next).1.state ≡ true)) where
  -- A flag that only one report can lower is lowered in a run only by that report.
  run_passes :
      (d : Delegation) (reports : List Report)
      → d.requester ≡ requester
      → d.assignee ≡ assignee
      → flag d.state ≡ true
      → flag (run d reports).state ≡ false
      → Memᴰ report reports
  unfolding run
  run_passes d [] r a up down = cc
  run_passes d ((reporter, next) ∷ rest) r a up down = elim (step d reporter next r a up) [
    | inl here ↦ Memᴰ.head (sym here)
    | inr still ↦ Memᴰ.tail (
        run_passes (apply d reporter next).1 rest (unfold apply in ground arith)
          (unfold apply in ground arith) still down)
  ]

abbrev not_completed : DelegationState → Bool
not_completed completed = false
not_completed _ = true

abbrev not_reviewed : DelegationState → Bool
not_reviewed completed = false
not_reviewed result_pending_review = false
not_reviewed _ = true

abbrev not_accepted : DelegationState → Bool
not_accepted completed = false
not_accepted result_pending_review = false
not_accepted accepted = false
not_accepted in_progress = false
not_accepted needs_input = false
not_accepted failed = false
not_accepted _ = true

module _ (d : Delegation) (reporter : String) (next : DelegationState) where
  completing :
      not_completed d.state ≡ true
      → (by reporter next ≡ by d.requester completed)
        ⊎ (not_completed (apply d reporter next).1.state ≡ true)
  unfolding apply
  completing h = ground (arith, eq_iff reporter d.assignee, eq_iff reporter d.requester)

  reviewing :
      not_reviewed d.state ≡ true
      → (by reporter next ≡ by d.assignee result_pending_review)
        ⊎ (not_reviewed (apply d reporter next).1.state ≡ true)
  unfolding apply
  reviewing h = ground (arith, eq_iff reporter d.assignee, eq_iff reporter d.requester)

  accepting :
      not_accepted d.state ≡ true
      → (by reporter next ≡ by d.assignee accepted)
        ⊎ (not_accepted (apply d reporter next).1.state ≡ true)
  unfolding apply
  accepting h = ground (arith, eq_iff reporter d.assignee, eq_iff reporter d.requester)

-- A task that was requested and is completed after some reports was accepted by its assignee,
-- handed in for review by its assignee, and declared complete by its requester.
pub completed_needs_both :
    (id requester assignee : String) (reports : List Report)
    → (run (request id requester assignee) reports).state ≡ completed
    → Memᴰ (by assignee accepted) reports
      × Memᴰ (by assignee result_pending_review) reports
      × Memᴰ (by requester completed) reports
unfolding request
completed_needs_both id requester assignee reports h =
    let d = request id requester assignee in
    (
      run_passes requester assignee not_accepted (by assignee accepted)
          (λ d reporter next r a up. rw (← a) (accepting d reporter next up)) d reports refl refl
          refl (rw h),
      run_passes requester assignee not_reviewed (by assignee result_pending_review)
          (λ d reporter next r a up. rw (← a) (reviewing d reporter next up)) d reports refl refl
          refl (rw h),
      run_passes requester assignee not_completed (by requester completed)
          (λ d reporter next r a up. rw (← r) (completing d reporter next up)) d reports refl refl
          refl (rw h),
    )

-- A task that failed was accepted by its assignee first.
pub failed_needs_acceptance :
    (id requester assignee : String) (reports : List Report)
    → (run (request id requester assignee) reports).state ≡ failed
    → Memᴰ (by assignee accepted) reports
unfolding request
failed_needs_acceptance id requester assignee reports h =
    run_passes requester assignee not_accepted (by assignee accepted)
      (λ d reporter next r a up. rw (← a) (accepting d reporter next up))
      (request id requester assignee) reports refl refl refl (rw h)

finished_step :
    (d : Delegation) (reporter : String) (next : DelegationState)
    → is_finished d ≡ true
    → (apply d reporter next).1 ≡ d
unfolding apply is_finished
finished_step d reporter next h = ground arith

-- A finished task is never reopened: it stays as it is after any number of reports.
pub finished_stays :
    (d : Delegation) (reports : List Report) → is_finished d ≡ true → run d reports ≡ d
unfolding run
finished_stays d [] h = refl
finished_stays d ((reporter, next) ∷ rest) h =
    rw (finished_step d reporter next h) (finished_stays d rest h)

abbrev is_unjudged : DelegationState → Bool
is_unjudged completed = false
is_unjudged cancelled = false
is_unjudged _ = true

self_step :
    (d : Delegation) (reporter : String) (next : DelegationState)
    → d.requester ≡ d.assignee
    → is_unjudged d.state ≡ true
    → is_unjudged (apply d reporter next).1.state ≡ true
unfolding apply
self_step d reporter next same h =
    ground (arith, eq_iff reporter d.assignee, eq_iff reporter d.requester)

self_run :
    (d : Delegation) (reports : List Report)
    → d.requester ≡ d.assignee
    → is_unjudged d.state ≡ true
    → is_unjudged (run d reports).state ≡ true
unfolding run
self_run d [] same h = h
self_run d ((reporter, next) ∷ rest) same h =
    self_run (apply d reporter next).1 rest (unfold apply in ground arith)
      (self_step d reporter next same h)

-- A task that a principal requested of itself is never completed and never cancelled by reports.
pub self_request :
    (id principal : String) (reports : List Report)
    → let s = (run (request id principal principal) reports).state in
      (s ≢ completed) × (s ≢ cancelled)
unfolding request
self_request id principal reports =
    let h = self_run (request id principal principal) reports refl refl in
    (λ e. ground (arith, h), λ e. ground (arith, h))
