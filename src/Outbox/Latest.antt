-- ===== src/Outbox/Latest.antt =====
-- crates/hrc-storage/src/outbox.rs: `ORDER BY device_sequence DESC LIMIT 1` picks the latest row.
use mathlib.Core.Path.{subst}
use mathlib.Core.List.{Memᴰ}
use herdr_remote_channel.Prelude.{
  ℕ, Bool, true, false, ◌≡◌, refl, sym, ◌≤◌, Option, none, some, inl, inr, List, [], ◌∷◌, All, ltb,
  arith, if◌then◌else◌, Bool-cases,
}
use herdr_remote_channel.Outbox.{OutboxRow}
use herdr_remote_channel.Outbox.Queries.{latest, newer}

-- The row with the greatest number among those that pass a test.
abbrev pub IsLatest : (OutboxRow → Bool) → List OutboxRow → Option OutboxRow → Type 0
IsLatest test rows none = All (λ row. test row ≡ false) rows
IsLatest test rows (some last) =
    Memᴰ last rows
    × (test last ≡ true)
    × All (λ row. test row ≡ true → row.device_sequence ≤ last.device_sequence) rows

none_pass :
    (test : OutboxRow → Bool) (n : ℕ) (rows : List OutboxRow)
    → All (λ row. test row ≡ false) rows
    → All (λ row. test row ≡ true → row.device_sequence ≤ n) rows
none_pass test n [] h = tt
none_pass test n (row ∷ rows) (h, hs) = ((λ p. cc), none_pass test n rows hs)

raise_bound :
    (test : OutboxRow → Bool) (m n : ℕ) (rows : List OutboxRow)
    → m ≤ n
    → All (λ row. test row ≡ true → row.device_sequence ≤ m) rows
    → All (λ row. test row ≡ true → row.device_sequence ≤ n) rows
raise_bound test m n [] le h = tt
raise_bound test m n (row ∷ rows) le (h, hs) =
    ((λ p. let below = h p in omega arith), raise_bound test m n rows le hs)

pub if_first {ℓ} : {A : Type ℓ} {b : Bool} → b ≡ true → (x y : A) → (if b then x else y) ≡ x
if_first {b = true} h x y = refl
if_first {b = false} h x y = cc

if_second {ℓ} : {A : Type ℓ} {b : Bool} → b ≡ false → (x y : A) → (if b then x else y) ≡ y
if_second {b = true} h x y = cc
if_second {b = false} h x y = refl

newer-IsLatest :
    (test : OutboxRow → Bool) (row : OutboxRow) (rows : List OutboxRow) (rest : Option OutboxRow)
    → test row ≡ true
    → IsLatest test rows rest
    → IsLatest test (row ∷ rows) (some (newer row rest))
newer-IsLatest test row rows none passes h =
    (Memᴰ.head refl, passes, ((λ p. omega arith), none_pass test row.device_sequence rows h))
newer-IsLatest test row rows (some later) passes (mem, ok_later, below) =
    elim (Bool-cases (ltb row.device_sequence later.device_sequence)) [
      | inl less ↦
          subst (λ z. IsLatest test (row ∷ rows) (some z)) (sym (if_first less later row))
            (Memᴰ.tail mem, ok_later, ((λ p. ground arith), below))
      | inr more ↦
          subst (λ z. IsLatest test (row ∷ rows) (some z)) (sym (if_second more later row))
            (
              Memᴰ.head refl,
              passes,
              (
                (λ p. omega arith),
                raise_bound test later.device_sequence row.device_sequence rows (ground arith)
                    below,
              ),
            )
    ]

skip-IsLatest :
    (test : OutboxRow → Bool) (row : OutboxRow) (rows : List OutboxRow) (rest : Option OutboxRow)
    → test row ≡ false
    → IsLatest test rows rest
    → IsLatest test (row ∷ rows) rest
skip-IsLatest test row rows none fails h = (fails, h)
skip-IsLatest test row rows (some later) fails (mem, passes, below) =
    (Memᴰ.tail mem, passes, ((λ p. cc), below))

pub latest-IsLatest :
    (test : OutboxRow → Bool) (rows : List OutboxRow) → IsLatest test rows (latest test rows)
unfolding latest
latest-IsLatest test [] = tt
latest-IsLatest test (row ∷ rows) = elim (Bool-cases (test row)) [
  | inl passes ↦
      rw (passes)
        (newer-IsLatest test row rows (latest test rows) passes (latest-IsLatest test rows))
  | inr fails ↦
      rw (fails) (skip-IsLatest test row rows (latest test rows) fails (latest-IsLatest test rows))
]
