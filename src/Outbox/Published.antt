-- ===== src/Outbox/Published.antt =====
-- crates/hrc-storage/src/outbox.rs: what becomes of a message once it is published.
use mathlib.Core.Path.{subst}
use herdr_remote_channel.Prelude.{
  String, Bool, true, false, ◌≡◌, refl, ◌∙◌, ap, Option, some, inl, inr, List, [], ◌∷◌, find,
  str_eq, if◌then◌else◌, Bool-cases,
}
use herdr_remote_channel.Errors.{ProtocolError, StorageError, Result}
use herdr_remote_channel.Storage.{published}
use herdr_remote_channel.Outbox.{OutboxRow, SequenceRow, Tables, ChainLink}
use herdr_remote_channel.Outbox.Updates.{has_id}
use herdr_remote_channel.Outbox.Step.{Steps}
use herdr_remote_channel.Outbox.Evolves.{KeepsRow, Grows}
use herdr_remote_channel.Outbox.Preserved.{Steps-Evolves}

-- What the first row of a table decides of a search.
if_found :
    (b : Bool) (x r : OutboxRow) (rest : Option OutboxRow)
    → b ≡ true
    → (if b then some x else rest) ≡ some r
    → x ≡ r
if_found true x r rest h e = cc
if_found false x r rest h e = cc

if_missed :
    (b : Bool) (x r : OutboxRow) (rest : Option OutboxRow)
    → b ≡ false
    → (if b then some x else rest) ≡ some r
    → rest ≡ some r
if_missed true x r rest h e = cc
if_missed false x r rest h e = e

-- A row that is found is found again among the rows that keep it.
find-Grows :
    (message_id : String) (numbers : List SequenceRow) (xs ys : List OutboxRow) (r : OutboxRow)
    → Grows numbers xs ys
    → find (has_id message_id) xs ≡ some r
    → (r' : OutboxRow) × (find (has_id message_id) ys ≡ some r') × KeepsRow r r'
find-Grows message_id numbers [] ys r g h = cc
find-Grows message_id numbers (x ∷ xs) [] r g h = elim g [ ]
find-Grows message_id numbers (x ∷ xs) (y ∷ ys) r g h =
    let same = ap (λ id. str_eq id message_id) (g.0).same_message in
    let rest = find (has_id message_id) xs in
    elim (Bool-cases (has_id message_id x)) [
      | inl here ↦ (
        y,
        rw (same ∙ here) refl,
        subst (λ z. KeepsRow z y) (if_found (has_id message_id x) x r rest here h) (g.0),
      )
      | inr later ↦
          let found =
            find-Grows message_id numbers xs ys r (g.1)
              (if_missed (has_id message_id x) x r rest later h) in
          (found.0, rw (same ∙ later) found.1, found.2)
    ]

module _ {ℓ} {E : Type ℓ} (hash_link : ChainLink → Result ProtocolError String)
    (hash_ids : List String → Result ProtocolError String) (from : StorageError → E) where
  -- Whatever operations follow, successful or not, a message that was published stays published,
  -- under the same sequence number and link, with the ciphertext that was published.
  pub Steps-published :
      (t u : Tables) (message_id : String) (r : OutboxRow)
      → Steps hash_link hash_ids from t u
      → find (has_id message_id) t.outbox ≡ some r
      → r.state ≡ published
      → (r' : OutboxRow) × (find (has_id message_id) u.outbox ≡ some r')
        × (r'.state ≡ published)
        × (r'.ciphertext ≡ r.ciphertext)
        × (r'.device_sequence ≡ r.device_sequence)
        × (r'.chain_id ≡ r.chain_id)
  Steps-published t u message_id r steps found is_published =
      let (r', again, k) =
        find-Grows message_id u.device_sequence t.outbox u.outbox r
          ((Steps-Evolves hash_link hash_ids from steps).rows) found in
      let (still, same) = k.sealed is_published in
      (r', again, still, same, k.same_sequence, k.same_chain)
