-- ===== src/Transport/Memory/Reading.antt =====
-- Reading the in-memory adapter's history page by page, from a cursor.
use herdr_remote_channel.Prelude.{
  ℕ, zero, suc, ◌+◌, ◌-◌, ◌≤◌, ◌<◌, String, ◌≡◌, refl, sym, ap, ◌∙◌, true, Option, none, some, List,
  [], ◌∷◌, length, take, drop, ltb, eq_iff, arith,
}
use herdr_remote_channel.Errors.{ok}
use herdr_remote_channel.Transport.{Publication}
use herdr_remote_channel.Transport.Memory.{
  MemoryTransport, last_revision, exists_group, revision_name, position, start_after, fetch, max,
  min,
}
use herdr_remote_channel.Transport.Memory.Linear.{IsLinear, Linked}
use herdr_remote_channel.Transport.Memory.Publishing.{revision_name-injective}

-- The cursor of a reader that has read the first `n` publications.
unfoldable pub cursor_at : ℕ → MemoryTransport → Option String
unfolding last_revision
cursor_at n t = last_revision none (take n t.publications)

position-numbered :
    (k n : ℕ) (parent : Option String) (ps : List Publication)
    → Linked k parent ps
    → n < length ps
    → position (revision_name (suc (k + n))) ps ≡ some n
unfolding position
position-numbered k n parent [] linked short = ground arith
position-numbered k zero parent (p ∷ ps) (at, behind, first, linked) short =
    ground (arith, eq_iff p.revision (revision_name (suc (k + 0))))
position-numbered k (suc n) parent (p ∷ ps) (at, behind, first, linked) short = ground (
  arith,
  eq_iff p.revision (revision_name (suc (k + suc n))),
  revision_name-injective (suc k) (suc (k + suc n)),
  position-numbered (suc k) n (some p.revision) ps linked (omega (arith, short)),
)

last_revision-take :
    (k n : ℕ) (parent : Option String) (ps : List Publication)
    → Linked k parent ps
    → n < length ps
    → last_revision parent (take (suc n) ps) ≡ some (revision_name (suc (k + n)))
unfolding last_revision
last_revision-take k n parent [] linked short = ground arith
last_revision-take k zero parent (p ∷ ps) (at, behind, first, linked) short =
    ap some (at ∙ ap revision_name (omega arith))
last_revision-take k (suc n) parent (p ∷ ps) (at, behind, first, linked) short =
    last_revision-take (suc k) n (some p.revision) ps linked (omega (arith, short))
    ∙ ap (λ i. some (revision_name i)) (omega arith)

-- A reader continues where it stopped.
pub start_after-cursor_at :
    (n : ℕ) (t : MemoryTransport)
    → IsLinear t
    → n ≤ length t.publications
    → start_after (cursor_at n t) t ≡ ok n
unfolding cursor_at start_after last_revision
start_after-cursor_at zero t linear within = refl
start_after-cursor_at (suc n) t linear within =
    rw (last_revision-take 0 n none t.publications linear.linked (omega (arith, within))) (
      ground
        (arith, position-numbered 0 n none t.publications linear.linked (omega (arith, within))))

take-none : (n : ℕ) → take {A = Publication} n [] ≡ []
take-none zero = refl
take-none (suc n) = refl

pub last_revision-take-drop :
    (before : Option String) (n m : ℕ) (ps : List Publication)
    → last_revision (last_revision before (take n ps)) (take m (drop n ps))
      ≡ last_revision before (take (n + m) ps)
unfolding last_revision
last_revision-take-drop before zero m ps = ap (λ i. last_revision before (take i ps)) (omega arith)
last_revision-take-drop before (suc n) m [] =
    ap (last_revision before) (take-none m ∙ sym (take-none (suc n + m)))
last_revision-take-drop before (suc n) m (p ∷ ps) =
    last_revision-take-drop (some p.revision) n m ps
    ∙ ap (λ i. last_revision before (take i (p ∷ ps))) {x = suc (n + m)} (omega arith)

-- How far one fetch gets.
abbrev pub next_stop : ℕ → ℕ → MemoryTransport → ℕ
next_stop n limit t = min (length t.publications) (n + max limit 1)

pub fetch-cursor_at :
    (n limit : ℕ) (t : MemoryTransport)
    → IsLinear t
    → exists_group t ≡ true
    → n ≤ length t.publications
    → fetch (cursor_at n t) limit t
      ≡ ok (record {
        publications = take (next_stop n limit t - n) (drop n t.publications);
        cursor = cursor_at (next_stop n limit t) t;
        more = ltb (next_stop n limit t) (length t.publications);
        anomalies = [];
      })
unfolding fetch cursor_at
fetch-cursor_at n limit t linear present within = ground (
  arith,
  start_after-cursor_at n t linear within,
  last_revision-take-drop none n (next_stop n limit t - n) t.publications,
)
