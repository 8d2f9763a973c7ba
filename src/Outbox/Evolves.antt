-- ===== src/Outbox/Evolves.antt =====
-- crates/hrc-storage/src/outbox.rs: what an operation leaves of the rows that are there, and of the
-- numbers that were given out.
use herdr_remote_channel.Prelude.{
  Bool, true, ◌≡◌, refl, ◌∙◌, ◌≤◌, inl, inr, List, [], ◌∷◌, ◌++◌, All, arith, Bool-cases,
}
use herdr_remote_channel.Storage.{published}
use herdr_remote_channel.Outbox.{OutboxRow, SequenceRow, Tables}
use herdr_remote_channel.Outbox.Queries.{update_where}
use herdr_remote_channel.Outbox.Numbers.{number_of, NoLess}

-- What no operation takes from a row: its place on the chain, and, once it is published, what was
-- published.
pub record KeepsRow (r r' : OutboxRow) : Type 0 where
  pub same_message : r'.message_id ≡ r.message_id
  pub same_channel : r'.channel_id ≡ r.channel_id
  pub same_device : r'.device_id ≡ r.device_id
  pub same_sequence : r'.device_sequence ≡ r.device_sequence
  pub same_chain : r'.chain_id ≡ r.chain_id
  pub sealed : r.state ≡ published → (r'.state ≡ published) × (r'.ciphertext ≡ r.ciphertext)

pub same_row : (r : OutboxRow) → KeepsRow r r
same_row r = record {
  same_message = refl;
  same_channel = refl;
  same_device = refl;
  same_sequence = refl;
  same_chain = refl;
  sealed = λ h. (h, refl);
}

then_row : (a b c : OutboxRow) → KeepsRow a b → KeepsRow b c → KeepsRow a c
then_row a b c k l = record {
  same_message = l.same_message ∙ k.same_message;
  same_channel = l.same_channel ∙ k.same_channel;
  same_device = l.same_device ∙ k.same_device;
  same_sequence = l.same_sequence ∙ k.same_sequence;
  same_chain = l.same_chain ∙ k.same_chain;
  sealed = λ h.
      let first = k.sealed h in let second = l.sealed first.0 in (second.0, second.1 ∙ first.1);
}

-- The number of a row is one that its device was given.
abbrev pub IsGiven : List SequenceRow → OutboxRow → Type 0
IsGiven numbers row = row.device_sequence ≤ number_of row.channel_id row.device_id numbers

-- Every row is kept, and rows may follow, with numbers that were given.
abbrev pub Grows : List SequenceRow → List OutboxRow → List OutboxRow → Type 0
Grows numbers [] ys = All (IsGiven numbers) ys
Grows numbers (x ∷ xs) [] = ⊥
Grows numbers (x ∷ xs) (y ∷ ys) = KeepsRow x y × Grows numbers xs ys

-- What becomes of the tables.
pub record Evolves (t u : Tables) : Type 0 where
  pub rows : Grows u.device_sequence t.outbox u.outbox
  pub numbers : NoLess t.device_sequence u.device_sequence

row-IsGiven :
    (numbers later : List SequenceRow) (y z : OutboxRow)
    → NoLess numbers later
    → KeepsRow y z
    → IsGiven numbers y
    → IsGiven later z
row-IsGiven numbers later y z more k given =
    let same : number_of z.channel_id z.device_id later ≡ number_of y.channel_id y.device_id later =
      λ i. number_of (k.same_channel i) (k.same_device i) later in
    omega (arith, k.same_sequence, more y.channel_id y.device_id, given, same)

pub still-IsGiven :
    (numbers later : List SequenceRow) (ys zs : List OutboxRow)
    → NoLess numbers later
    → Grows later ys zs
    → All (IsGiven numbers) ys
    → All (IsGiven later) zs
still-IsGiven numbers later [] zs more g given = g
still-IsGiven numbers later (y ∷ ys) [] more g given = elim g [ ]
still-IsGiven numbers later (y ∷ ys) (z ∷ zs) more g given = (
  row-IsGiven numbers later y z more (g.0) (given.0),
  still-IsGiven numbers later ys zs more (g.1) (given.1),
)

pub same_rows : (numbers : List SequenceRow) (xs : List OutboxRow) → Grows numbers xs xs
same_rows numbers [] = tt
same_rows numbers (x ∷ xs) = (same_row x, same_rows numbers xs)

then_rows :
    (numbers later : List SequenceRow) (xs ys zs : List OutboxRow)
    → NoLess numbers later
    → Grows numbers xs ys
    → Grows later ys zs
    → Grows later xs zs
then_rows numbers later [] ys zs more g h = still-IsGiven numbers later ys zs more h g
then_rows numbers later (x ∷ xs) [] zs more g h = elim g [ ]
then_rows numbers later (x ∷ xs) (y ∷ ys) [] more g h = elim h [ ]
then_rows numbers later (x ∷ xs) (y ∷ ys) (z ∷ zs) more g h =
    (then_row x y z (g.0) (h.0), then_rows numbers later xs ys zs more (g.1) (h.1))

pub then_tables : (t u v : Tables) → Evolves t u → Evolves u v → Evolves t v
then_tables t u v e f = record {
  rows =
      then_rows u.device_sequence v.device_sequence t.outbox u.outbox v.outbox f.numbers e.rows
        f.rows;
  numbers = λ c d. omega (arith, e.numbers c d, f.numbers c d);
}

-- A step that leaves the outbox alone.
pub same_outbox :
    (t u : Tables) → u.outbox ≡ t.outbox → NoLess t.device_sequence u.device_sequence → Evolves t u
same_outbox t u same more = record {
  rows = rw (same) (same_rows u.device_sequence t.outbox);
  numbers = more;
}

pub same_tables : (t : Tables) → Evolves t t
same_tables t = same_outbox t t refl (λ c d. omega arith)

pub append-Grows :
    (numbers : List SequenceRow) (row : OutboxRow) (xs : List OutboxRow)
    → IsGiven numbers row
    → Grows numbers xs (xs ++ (row ∷ []))
append-Grows numbers row [] given = (given, tt)
append-Grows numbers row (x ∷ xs) given = (same_row x, append-Grows numbers row xs given)

update_where-Grows :
    (numbers : List SequenceRow) (test : OutboxRow → Bool) (change : OutboxRow → OutboxRow)
    (xs : List OutboxRow)
    → ((x : OutboxRow) → test x ≡ true → KeepsRow x (change x))
    → Grows numbers xs (update_where test change xs)
unfolding update_where
update_where-Grows numbers test change [] k = tt
update_where-Grows numbers test change (x ∷ xs) k = (
  elim (Bool-cases (test x)) [
    | inl passes ↦ rw (passes) (k x passes)
    | inr skipped ↦ rw (skipped) (same_row x)
  ],
  update_where-Grows numbers test change xs k,
)

-- An UPDATE that keeps each row that it finds.
pub update_where-Evolves :
    (test : OutboxRow → Bool) (change : OutboxRow → OutboxRow) (t : Tables)
    → ((x : OutboxRow) → test x ≡ true → KeepsRow x (change x))
    → Evolves t (record t { outbox = update_where test change t.outbox })
update_where-Evolves test change t k = record {
  rows = update_where-Grows t.device_sequence test change t.outbox k;
  numbers = λ c d. omega arith;
}
