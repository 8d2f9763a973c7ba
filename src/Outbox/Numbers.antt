-- ===== src/Outbox/Numbers.antt =====
-- crates/hrc-storage/src/outbox.rs: the number that `increment_device_sequence` gives out.
use herdr_remote_channel.Prelude.{
  ℕ, suc, String, ◌≡◌, ◌≤◌, refl, sym, ◌∙◌, ap, Option, none, some, inl, inr, List, [], ◌∷◌, ◌++◌,
  find, true, eq_refl, arith, Bool-cases, Option-cases,
}
use herdr_remote_channel.Errors.{ok}
use herdr_remote_channel.Inbound.Queries.{any}
use herdr_remote_channel.Inbound.Run.{OnOk}
use herdr_remote_channel.Outbox.{SequenceRow, Tables}
use herdr_remote_channel.Outbox.Queries.{
  update_where, own_sequence, start_sequence, next_sequence, increment_device_sequence,
}

abbrev last_of : Option SequenceRow → ℕ
last_of none = 0
last_of (some row) = row.last_sequence

-- The last number that a device was given in a channel, 0 before the first.
abbrev pub number_of : String → String → List SequenceRow → ℕ
number_of channel_id device_id rows = last_of (find (own_sequence channel_id device_id) rows)

number_of-append :
    (channel_id device_id : String) (new : SequenceRow) (rows : List SequenceRow)
    → new.last_sequence ≡ 0
    → number_of channel_id device_id (rows ++ (new ∷ [])) ≡ number_of channel_id device_id rows
number_of-append c d new [] zero = elim (Bool-cases (own_sequence c d new)) [
  | inl own ↦ rw (own) zero
  | inr other ↦ rw (other) refl
]
number_of-append c d new (row ∷ rows) zero = elim (Bool-cases (own_sequence c d row)) [
  | inl own ↦ rw (own) refl
  | inr other ↦ rw (other) (number_of-append c d new rows zero)
]

number_of-start_sequence :
    (channel_id device_id : String) (rows : List SequenceRow)
    → number_of channel_id device_id (start_sequence channel_id device_id rows)
      ≡ number_of channel_id device_id rows
unfolding start_sequence
number_of-start_sequence c d rows = elim (Bool-cases (any (own_sequence c d) rows)) [
  | inl known ↦ rw (known) refl
  | inr new ↦ rw (new) (number_of-append c d _ rows refl)
]

number_given :
    (channel_id device_id : String) (rows : List SequenceRow) (row : SequenceRow)
    → find
        (own_sequence channel_id device_id)
        (update_where (own_sequence channel_id device_id) next_sequence rows)
      ≡ some row
    → row.last_sequence ≡ suc (number_of channel_id device_id rows)
unfolding update_where
number_given c d [] row h = cc
number_given c d (first ∷ rows) row h = ground (arith, number_given c d rows row)

-- No device in any channel lost a number.
abbrev pub NoLess : List SequenceRow → List SequenceRow → Type 0
NoLess numbers later =
    (channel_id device_id : String)
    → number_of channel_id device_id numbers ≤ number_of channel_id device_id later

-- An update of rows of `device_sequence` that keeps their keys and lowers no number.
pub update_where-NoLess :
    (c d : String) (change : SequenceRow → SequenceRow) (rows : List SequenceRow)
    → ((row : SequenceRow)
        → ((change row).channel_id ≡ row.channel_id)
          × ((change row).device_id ≡ row.device_id)
          × (row.last_sequence ≤ (change row).last_sequence))
    → NoLess rows (update_where (own_sequence c d) change rows)
unfolding update_where
update_where-NoLess c d change [] keeps c' d' = omega arith
update_where-NoLess c d change (row ∷ rows) keeps c' d' =
    ground (arith, keeps row, update_where-NoLess c d change rows keeps c' d')

start_sequence-NoLess :
    (channel_id device_id : String) (rows : List SequenceRow)
    → NoLess rows (start_sequence channel_id device_id rows)
unfolding start_sequence
start_sequence-NoLess c d rows c' d' = elim (Bool-cases (any (own_sequence c d) rows)) [
  | inl known ↦ rw (known) (omega arith)
  | inr new ↦ rw (new) (omega (arith, number_of-append c' d' _ rows refl))
]

-- The number given out is the next one; no number is lowered, and the outbox is left alone.
pub increment_device_sequence-number_of :
    (channel_id device_id : String) (t : Tables)
    → OnOk
        (λ n.
          (n.0.0 ≡ suc (number_of channel_id device_id t.device_sequence))
          × (n.1.outbox ≡ t.outbox)
          × (n.1.outbox_recipient ≡ t.outbox_recipient)
          × NoLess t.device_sequence n.1.device_sequence
          × (n.0.0 ≡ number_of channel_id device_id n.1.device_sequence))
        (increment_device_sequence channel_id device_id t)
unfolding increment_device_sequence
increment_device_sequence-number_of c d t =
    let started = start_sequence c d t.device_sequence in
    let rows = update_where (own_sequence c d) next_sequence started in
    elim (Option-cases (find (own_sequence c d) rows)) [
      | inl nothing ↦ rw (nothing) tt
      | inr (row, found) ↦ rw (found) (
        number_given c d started row found
            ∙ ap suc (number_of-start_sequence c d t.device_sequence),
        refl,
        refl,
        (λ c' d'. omega (
          arith,
          start_sequence-NoLess c d t.device_sequence c' d',
          update_where-NoLess c d next_sequence started (λ row. (refl, refl, omega arith)) c' d',
        )),
        ap last_of (sym found),
      )
    ]

find_updated :
    (channel_id device_id : String) (rows : List SequenceRow)
    → any (own_sequence channel_id device_id) rows ≡ true
    → (row : SequenceRow) × (find
          (own_sequence channel_id device_id)
          (update_where (own_sequence channel_id device_id) next_sequence rows)
        ≡ some row)
unfolding update_where
find_updated c d [] h = cc
find_updated c d (row ∷ rows) h = elim (Bool-cases (own_sequence c d row)) [
  | inl own ↦ (next_sequence row, rw (own, own) refl)
  | inr other ↦
      let rest = find_updated c d rows (ground arith) in (rest.0, rw (other, other) rest.1)
]

start_sequence-any :
    (channel_id device_id : String) (rows : List SequenceRow)
    → any (own_sequence channel_id device_id) (start_sequence channel_id device_id rows) ≡ true
unfolding start_sequence
start_sequence-any c d rows = elim (Bool-cases (any (own_sequence c d) rows)) [
  | inl known ↦ rw (known) known
  | inr new ↦ rw (new) (started rows)
]
  where
    started :
        (rows : List SequenceRow)
        → any (own_sequence c d) (
            rows
            ++ (record { channel_id = c; device_id = d; last_sequence = 0; last_chain_id = none }
                ∷ []))
          ≡ true
    started [] = ground (arith, eq_refl c, eq_refl d)
    started (row ∷ rows) = ground (arith, started rows)

-- A number is always given.
pub increment_device_sequence_succeeds :
    (channel_id device_id : String) (t : Tables)
    → (n : (ℕ × Option String) × Tables) × (increment_device_sequence channel_id device_id t ≡ ok n)
unfolding increment_device_sequence
increment_device_sequence_succeeds c d t =
    let started = start_sequence c d t.device_sequence in
    let found = find_updated c d started (start_sequence-any c d t.device_sequence) in
    (
      (
        (found.0.last_sequence, found.0.last_chain_id),
        record t { device_sequence = update_where (own_sequence c d) next_sequence started },
      ),
      rw (found.1) refl,
    )
