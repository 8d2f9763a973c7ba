-- ===== src/Transport/Memory/Publishing.antt =====
-- Publishing to the in-memory adapter: the compare-and-swap on its head, and objects that are never
-- overwritten.
use herdr_remote_channel.Prelude.{
  ℕ, suc, ◌+◌, String, ◌≡◌, refl, ap, ◌∙◌, true, false, Option, none, some, List, [], ◌∷◌, length,
  ◌++◌, eq_iff, arith, bytes_eq_sound,
}
use herdr_remote_channel.Prelude.BTreeMap.{BTreeMap, get, insert, get-insert}
use herdr_remote_channel.Prelude.Decimal.{decimal, decimal-injective, join-cancel}
use herdr_remote_channel.Errors.{ok, err, try_then_any}
use herdr_remote_channel.Transport.{
  is_genesis, Publication, PublishObject, PublishRequest, TransportError, conflict,
}
use herdr_remote_channel.Transport.Memory.{
  MemoryTransport, last_revision, head, same_revision, revision_name, append, publish,
  check_request, check_each, check_objects, store,
}
use herdr_remote_channel.Transport.Memory.Linear.{IsLinear, Linked}

store_keeps :
    (stored current : BTreeMap (List ℕ)) (objects : List PublishObject) (name : String)
    (bytes : List ℕ) {u : Unit {0}}
    → get name stored ≡ some bytes
    → check_each stored objects ≡ ok u
    → get name current ≡ some bytes
    → get name (store current objects) ≡ some bytes
unfolding check_each store
store_keeps stored current [] name bytes at_first checked now = now
store_keeps stored current (o ∷ objects) name bytes at_first checked now =
    store_keeps stored (insert o.name o.bytes current) objects name bytes at_first (ground arith) (
      ground (
        arith,
        get-insert o.name name o.bytes current,
        eq_iff o.name name,
        bytes_eq_sound bytes o.bytes,
      ))

pub last_numbered :
    (k : ℕ) (parent : Option String) (p : Publication) (ps : List Publication)
    → Linked k parent (p ∷ ps)
    → last_revision parent (p ∷ ps) ≡ some (revision_name (k + length (p ∷ ps)))
unfolding last_revision
last_numbered k parent p [] (at, behind, first, linked) =
    ap some (at ∙ ap revision_name (omega arith))
last_numbered k parent p (q ∷ qs) (at, behind, first, linked) =
    last_numbered (suc k) (some p.revision) q qs linked
    ∙ ap (λ n. some (revision_name n)) (omega arith)

pub revision_name-injective : (m n : ℕ) → revision_name m ≡ revision_name n → m ≡ n
revision_name-injective m n e =
    decimal-injective 8 m n (join-cancel "rev-" (decimal 8 m) (decimal 8 n) e)

pub last_revision-append :
    (before : Option String) (ps : List Publication) (p : Publication)
    → last_revision before (ps ++ (p ∷ [])) ≡ some p.revision
unfolding last_revision
last_revision-append before [] p = refl
last_revision-append before (q ∷ qs) p = last_revision-append (some q.revision) qs p

pub exists-append :
    (ps : List Publication) (p : Publication)
    → elim (ps ++ (p ∷ [])) [ [] ↦ false | q ∷ qs ↦ true ] ≡ true
exists-append [] p = refl
exists-append (q ∷ qs) p = refl

same_revision_sound : (a b : Option String) → same_revision a b ≡ true → a ≡ b
same_revision_sound none none h = refl
same_revision_sound (some a) (some b) h = ap some ((eq_iff a b).0 h)
same_revision_sound none (some b) h = cc
same_revision_sound (some a) none h = cc

-- The next revision is not the head.
head-behind :
    (t : MemoryTransport)
    → IsLinear t
    → same_revision (head t) (some (revision_name (suc t.next_revision))) ≡ false
unfolding head last_revision
head-behind t linear = go t.publications linear.linked linear.numbered
  where
    go :
        (ps : List Publication)
        → Linked 0 none ps
        → t.next_revision ≡ length ps
        → same_revision (last_revision none ps) (some (revision_name (suc t.next_revision))) ≡ false
    go [] linked numbered = refl
    go (p ∷ ps) linked numbered = ground (
      arith,
      last_numbered 0 none p ps linked,
      eq_iff (revision_name (length (p ∷ ps))) (revision_name (suc t.next_revision)),
      revision_name-injective (length (p ∷ ps)) (suc t.next_revision),
    )

module _ (sha256_hex : List ℕ → String) where
  -- An object that is stored keeps its bytes, whatever is published afterwards and whether it is
  -- accepted or refused.
  pub publish_keeps_objects :
      (request : PublishRequest) (t : MemoryTransport) (name : String) (bytes : List ℕ)
      → get name t.objects ≡ some bytes
      → get name (publish sha256_hex request t).1.objects ≡ some bytes
  unfolding publish append check_request check_objects
  publish_keeps_objects request t name bytes stored =
      try_then_any (λ t'. get name t'.objects ≡ some bytes) (check_request sha256_hex request t) t
        (λ _.
          let (publication, t') = append sha256_hex request.class request.objects t in
          (ok publication, t'))
        stored
        λ _ accepted.
          store_keeps t.objects t.objects request.objects name bytes stored (ground arith) stored

  -- A request that is refused changes nothing.
  pub publish-refused :
      (request : PublishRequest) (t : MemoryTransport) {e : TransportError}
      → (publish sha256_hex request t).0 ≡ err e
      → (publish sha256_hex request t).1 ≡ t
  unfolding publish
  publish-refused request t h = ground arith

  -- On a history that is one chain, once a publication is accepted, another one that was prepared
  -- on the same head, and is not a genesis, gets a conflict that reports the new head.
  pub publish_one_winner :
      (first second : PublishRequest) (t : MemoryTransport) (p : Publication)
      → IsLinear t
      → (publish sha256_hex first t).0 ≡ ok p
      → second.expected_revision ≡ first.expected_revision
      → is_genesis second.class ≡ false
      → (publish sha256_hex second (publish sha256_hex first t).1).0
        ≡ err (conflict (some p.revision))
  unfolding publish append check_request head
  publish_one_winner first second t p linear accepted same not_genesis = ground (
    arith,
    head-behind t linear,
    same_revision_sound first.expected_revision (head t),
    last_revision-append none t.publications p,
    exists-append t.publications p,
  )
