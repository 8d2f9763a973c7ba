-- ===== src/Inbound/Committed.antt =====
-- crates/hrc-storage/src/ordering.rs: what holds after the commit or the roll back of a transaction.
use mathlib.Core.Path.{subst}
use herdr_remote_channel.Errors.{map_err, err, ok, Result, StorageError}
use herdr_remote_channel.Prelude.{ap, ◌≡◌, none, some}
use herdr_remote_channel.Inbound.{InboundOutcome, Tables}
use herdr_remote_channel.Inbound.Run.{Run, OnReturn}
use herdr_remote_channel.Inbound.Record.{committed}

some_injective {ℓ} : {A : Type ℓ} (a b : A) → some a ≡ some b → a ≡ b
some_injective a b h = cc

pub same_after : (a b : Result StorageError InboundOutcome × Tables) → some a ≡ some b → a.1 ≡ b.1
same_after a b h = ap (λ x. x.1) (some_injective a b h)

same_outcome : (a b : InboundOutcome) → map_err {E = StorageError} (λ e. e) (ok a) ≡ ok b → a ≡ b
same_outcome a b h = cc

-- What holds of the tables before, and of those that a transaction leaves when it returns, holds
-- after the commit or the roll back.
pub on_committed {ℓ} :
    (P : Tables → Type ℓ) (t : Tables) (r : Run StorageError (InboundOutcome × Tables))
    (result : Result StorageError InboundOutcome) (after : Tables)
    → P t
    → OnReturn (λ x. P (x.1)) r
    → committed t r ≡ some (result, after)
    → P after
on_committed P t none result after i k h = cc
on_committed P t (some (ok (outcome, done))) result after i k h =
    subst P (same_after (ok outcome, done) (result, after) h) k
on_committed P t (some (err e)) result after i k h =
    subst P (same_after (err e, t) (result, after) h) i

-- What holds of what a transaction returns holds of a committed outcome and the tables after it.
pub on_result {ℓ} :
    (P : InboundOutcome × Tables → Type ℓ) (t : Tables)
    (r : Run StorageError (InboundOutcome × Tables)) (outcome : InboundOutcome) (after : Tables)
    → OnReturn P r
    → committed t r ≡ some (ok outcome, after)
    → P (outcome, after)
on_result P t none outcome after k h = cc
on_result P t (some (ok (first, done))) outcome after k h =
    let same = some_injective (ok first, done) (ok outcome, after) h in
    subst (λ o. P (o, after)) (same_outcome first outcome (ap (λ x. x.0) same))
      (subst (λ x. P (first, x)) (ap (λ x. x.1) same) k)
on_result P t (some (err e)) outcome after k h = cc
