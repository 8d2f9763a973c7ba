-- ===== src/Transport/Memory/Linear.antt =====
-- The history of the in-memory adapter is one chain, from genesis to the head.
use herdr_remote_channel.Prelude.{
  ℕ, suc, ◌+◌, String, ◌≡◌, refl, ap, ◌∙◌, ◌≢◌, true, false, Option, none, some, List, [], ◌∷◌,
  ◌++◌, length, length-append, arith,
}
use herdr_remote_channel.Errors.{ok, try_then_any}
use herdr_remote_channel.Transport.{
  PublicationClass, genesis, Publication, PublishObject, PublishRequest,
}
use herdr_remote_channel.Transport.Memory.{
  MemoryTransport, new, last_revision, head, exists_group, revision_name, append, create_group,
  publish, check_request,
}

-- Publications numbered from `k + 1`, each after the one before it; only the first has no parent,
-- and it is the genesis.
abbrev pub Linked : ℕ → Option String → List Publication → Type 0
Linked k parent [] = Unit
Linked k parent (p ∷ ps) =
    (p.revision ≡ revision_name (suc k))
    × (p.parent_revision ≡ parent)
    × (parent ≡ none → p.class ≡ genesis)
    × Linked (suc k) (some p.revision) ps

pub record IsLinear (t : MemoryTransport) : Type 0 where
  pub linked : Linked 0 none t.publications
  pub numbered : t.next_revision ≡ length t.publications

Linked-append :
    (k : ℕ) (parent : Option String) (ps : List Publication) (p : Publication)
    → Linked k parent ps
    → p.revision ≡ revision_name (suc (k + length ps))
    → p.parent_revision ≡ last_revision parent ps
    → (last_revision parent ps ≡ none → p.class ≡ genesis)
    → Linked k parent (ps ++ (p ∷ []))
unfolding last_revision
Linked-append k parent [] p linked number after first =
    (number ∙ ap revision_name (omega arith), after, first, tt)
Linked-append k parent (q ∷ qs) p (at, behind, start, linked) number after first = (
  at,
  behind,
  start,
  Linked-append (suc k) (some q.revision) qs p linked (number ∙ ap revision_name (omega arith))
      after first,
)

last_revision-some : (r : String) (ps : List Publication) → last_revision (some r) ps ≢ none
unfolding last_revision
last_revision-some r [] e = cc
last_revision-some r (p ∷ ps) e = last_revision-some p.revision ps e

pub head-exists : (t : MemoryTransport) → exists_group t ≡ true → head t ≢ none
unfolding head last_revision
head-exists t = nonempty t.publications
  where
    nonempty :
        (ps : List Publication)
        → elim ps [ [] ↦ false | p ∷ qs ↦ true ] ≡ true
        → last_revision none ps ≢ none
    nonempty [] h = cc
    nonempty (p ∷ ps) h = last_revision-some p.revision ps

module _ (sha256_hex : List ℕ → String) where
  pub append-IsLinear :
      (class : PublicationClass) (objects : List PublishObject) (t : MemoryTransport)
      → (head t ≡ none → class ≡ genesis)
      → IsLinear t
      → IsLinear (append sha256_hex class objects t).1
  unfolding append head
  append-IsLinear class objects t first linear = record {
    linked =
        Linked-append 0 none t.publications (append sha256_hex class objects t).0 linear.linked
          (ap revision_name (omega (arith, linear.numbered))) refl first;
    numbered = omega (
      arith,
      linear.numbered,
      length-append t.publications ((append sha256_hex class objects t).0 ∷ []),
    );
  }

  -- An adapter's states: those that creating and publishing lead to, refused requests included.
  pub data Reachable : MemoryTransport → Type 0 where
    starts : (group_id : String) → Reachable (new group_id)
    creates :
        {t : MemoryTransport} (objects : List PublishObject)
        → Reachable t
        → Reachable (create_group sha256_hex objects t).1
    publishes :
        {t : MemoryTransport} (request : PublishRequest)
        → Reachable t
        → Reachable (publish sha256_hex request t).1

  create_group-IsLinear :
      (objects : List PublishObject) (t : MemoryTransport)
      → IsLinear t
      → IsLinear (create_group sha256_hex objects t).1
  unfolding create_group
  create_group-IsLinear objects t linear =
      try_then_any IsLinear _ t _ linear λ _ _. append-IsLinear genesis objects t (λ _. refl) linear

  check_request-exists :
      (request : PublishRequest) (t : MemoryTransport) {u : Unit {0}}
      → check_request sha256_hex request t ≡ ok u
      → exists_group t ≡ true
  unfolding check_request
  check_request-exists request t accepted = ground arith

  publish-IsLinear :
      (request : PublishRequest) (t : MemoryTransport)
      → IsLinear t
      → IsLinear (publish sha256_hex request t).1
  unfolding publish
  publish-IsLinear request t linear =
      try_then_any IsLinear (check_request sha256_hex request t) t _ linear λ _ accepted.
        append-IsLinear request.class request.objects t
          (λ e. absurd (head-exists t (check_request-exists request t accepted) e)) linear

  -- Every state of the adapter holds one chain: the genesis first, each later publication after the
  -- one before it, under revisions with consecutive numbers.
  pub Reachable-IsLinear : {t : MemoryTransport} → Reachable t → IsLinear t
  Reachable-IsLinear (starts _) = record { linked = tt; numbered = refl }
  Reachable-IsLinear (creates objects before) =
      create_group-IsLinear objects _ (Reachable-IsLinear before)
  Reachable-IsLinear (publishes request before) =
      publish-IsLinear request _ (Reachable-IsLinear before)
