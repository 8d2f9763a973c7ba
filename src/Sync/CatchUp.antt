-- ===== src/Sync/CatchUp.antt =====
-- A reader of an honest adapter's history: each fetch continues it, and enough of them read it all.
use mathlib.Core.Path.{subst}
use herdr_remote_channel.Prelude.{
  ℕ, zero, suc, ◌+◌, ◌-◌, ◌≤◌, String, ◌≡◌, refl, sym, ap, ◌∙◌, true, Option, none, some, List, [],
  ◌∷◌, length, take, drop, eq_refl, arith,
}
use herdr_remote_channel.Prelude.BTreeMap.{get, get-insert}
use herdr_remote_channel.Errors.{CoreError, Result, ok, is_ok, try_then, map_err, storage}
use herdr_remote_channel.Transport.{Publication, TransportError}
use herdr_remote_channel.Transport.Memory.{
  MemoryTransport, memory, last_revision, head, exists_group,
}
use herdr_remote_channel.Transport.Memory.Linear.{IsLinear, Linked}
use herdr_remote_channel.Transport.Memory.Reading.{
  cursor_at, next_stop, fetch-cursor_at, last_revision-take-drop,
}
use herdr_remote_channel.Storage.{Database, ChannelRecord, with_channel}
use herdr_remote_channel.Sync.Steps.{set_sync_cursor-row, fetch_once-page}
use herdr_remote_channel.Sync.{
  process_page, process_checked, read_page, verify_chain, process, fetch_once, FetchOutcome,
  count_objects,
}

Linked-drop :
    (k n : ℕ) (parent : Option String) (ps : List Publication)
    → Linked k parent ps
    → Linked (k + n) (last_revision parent (take n ps)) (drop n ps)
unfolding last_revision
Linked-drop k zero parent ps linked = subst (λ i. Linked i parent ps) (omega arith) linked
Linked-drop k (suc n) parent [] linked = tt
Linked-drop k (suc n) parent (p ∷ ps) (at, behind, first, linked) =
    subst (λ i. Linked i (last_revision (some p.revision) (take n ps)) (drop n ps)) {x = suc k + n}
      (omega arith) (Linked-drop (suc k) n (some p.revision) ps linked)

Linked-take :
    (k n : ℕ) (parent : Option String) (ps : List Publication)
    → Linked k parent ps
    → Linked k parent (take n ps)
Linked-take k zero parent ps linked = tt
Linked-take k (suc n) parent [] linked = tt
Linked-take k (suc n) parent (p ∷ ps) (at, behind, first, linked) =
    (at, behind, first, Linked-take (suc k) n (some p.revision) ps linked)

verify_chain-Linked :
    (k : ℕ) (parent : Option String) (ps : List Publication)
    → Linked k parent ps
    → verify_chain parent ps ≡ ok tt
unfolding verify_chain
verify_chain-Linked k parent [] linked = refl
verify_chain-Linked k none (p ∷ ps) (at, behind, first, linked) =
    ground (arith, verify_chain-Linked (suc k) (some p.revision) ps linked)
verify_chain-Linked k (some r) (p ∷ ps) (at, behind, first, linked) =
    ground (arith, eq_refl r, verify_chain-Linked (suc k) (some p.revision) ps linked)

verify_chain-page :
    (t : MemoryTransport) (n m : ℕ)
    → IsLinear t
    → verify_chain (cursor_at n t) (take m (drop n t.publications)) ≡ ok tt
unfolding cursor_at
verify_chain-page t n m linear =
    verify_chain-Linked (0 + n) (cursor_at n t) (take m (drop n t.publications)) (
      Linked-take (0 + n) m (cursor_at n t) (drop n t.publications)
        (Linked-drop 0 n none t.publications linear.linked))

page_end :
    (t : MemoryTransport) (n limit : ℕ)
    → n ≤ length t.publications
    → last_revision (cursor_at n t) (take (next_stop n limit t - n) (drop n t.publications))
      ≡ cursor_at (next_stop n limit t) t
unfolding cursor_at
page_end t n limit within =
    last_revision-take-drop none n (next_stop n limit t - n) t.publications
    ∙ ap (λ i. cursor_at i t) {x = n + (next_stop n limit t - n)} (ground arith)

take-all : (n : ℕ) (ps : List Publication) → length ps ≤ n → take n ps ≡ ps
take-all zero [] h = refl
take-all zero (p ∷ ps) h = ground arith
take-all (suc n) [] h = refl
take-all (suc n) (p ∷ ps) h = ap (λ qs. p ∷ qs) (take-all n ps (omega (arith, h)))

cursor_at-end : (t : MemoryTransport) (n : ℕ) → length t.publications ≤ n → cursor_at n t ≡ head t
unfolding cursor_at head
cursor_at-end t n h = ap (last_revision none) (take-all n t.publications h)

module _ (describe : CoreError → String) (describe_transport : TransportError → String) where
  -- A fetch succeeded and left the channel's row as given.
  abbrev pub Fetched : String → ChannelRecord → Result CoreError FetchOutcome × Database → Type 0
  Fetched channel_id row step = (is_ok step.0 ≡ true) × (get channel_id step.1.channel ≡ some row)

  -- What processing a page leaves of the channel's row.
  pub process-row :
      (channel_id : String) (ps : List Publication) (outcome : FetchOutcome) (db : Database)
      (row : ChannelRecord)
      → get channel_id db.channel ≡ some row
      → Fetched channel_id
          (record row { sync_cursor = last_revision row.sync_cursor ps })
          (process describe describe_transport channel_id ps outcome db)
  unfolding process last_revision
  process-row channel_id [] outcome db row found = (refl, found)
  process-row channel_id (p ∷ ps) outcome db row found =
      subst
        (λ step.
          Fetched channel_id (record row { sync_cursor = last_revision (some p.revision) ps })
            (try_then (map_err storage step.0) step.1 λ _.
              process describe describe_transport channel_id ps
                (record (count_objects p.objects outcome) { cursor = some p.revision }) step.1))
        (sym (set_sync_cursor-row channel_id p.revision db row found))
        (process-row channel_id ps
          (record (count_objects p.objects outcome) { cursor = some p.revision })
          (with_channel channel_id row' db) row'
          (ground (arith, get-insert channel_id channel_id row' db.channel, eq_refl channel_id)))
    where
      row' : ChannelRecord
      row' = record row { sync_cursor = some p.revision }

  -- A fetch by a reader of the in-memory adapter that is not halted and has read `n` publications
  -- succeeds, reads on by up to `limit` of them, at least one while there are any, and stores how
  -- far it got.
  pub fetch_once-cursor_at :
      (sha256_hex : List ℕ → String) (t : MemoryTransport) (n limit : ℕ) (channel_id now : String)
      (db : Database)
      → IsLinear t
      → exists_group t ≡ true
      → n ≤ length t.publications
      → get channel_id db.channel
        ≡ some (record { sync_cursor = cursor_at n t; halted_reason = none })
      → Fetched channel_id
          (record { sync_cursor = cursor_at (next_stop n limit t) t; halted_reason = none })
          (fetch_once describe describe_transport (memory sha256_hex) t channel_id limit now db)
  fetch_once-cursor_at sha256_hex t n limit channel_id now db linear present within found =
      subst (Fetched channel_id row') (sym equation) (
        subst
          (λ cursor.
            Fetched channel_id (record { sync_cursor = cursor; halted_reason = none })
              (process describe describe_transport channel_id page start db))
          (page_end t n limit within) (process-row channel_id page start db row found))
    where
      row : ChannelRecord
      row = record { sync_cursor = cursor_at n t; halted_reason = none }

      row' : ChannelRecord
      row' = record { sync_cursor = cursor_at (next_stop n limit t) t; halted_reason = none }

      page : List Publication
      page = take (next_stop n limit t - n) (drop n t.publications)

      start : FetchOutcome
      start = record {
        publications = length page;
        control_objects = 0;
        message_objects = 0;
        cursor = none;
      }

      equation :
          fetch_once describe describe_transport (memory sha256_hex) t channel_id limit now db
          ≡ process describe describe_transport channel_id page start db
      equation =
          fetch_once-page describe describe_transport (memory sha256_hex) t channel_id limit now db
            row found refl
          ∙ ap
              (λ fetched.
                process_page describe describe_transport channel_id (cursor_at n t) now db
                  (read_page describe describe_transport fetched))
              (fetch-cursor_at n limit t linear present within)
          ∙ ap (process_checked describe describe_transport channel_id page now db)
              (verify_chain-page t n (next_stop n limit t - n) linear)

  -- `rounds` fetches, one after the other.
  unfoldable pub fetch_rounds :
      (List ℕ → String) → MemoryTransport → ℕ → String → ℕ → String → Database → Database
  fetch_rounds sha256_hex t limit channel_id zero now db = db
  fetch_rounds sha256_hex t limit channel_id (suc rounds) now db =
      fetch_rounds sha256_hex t limit channel_id rounds now
        (fetch_once describe describe_transport (memory sha256_hex) t channel_id limit now db).1

  -- A reader of the in-memory adapter that is not halted and has read `n` publications stands at
  -- the head, and is not halted, after as many fetches as there are publications left, whatever the
  -- page size.
  pub fetch_rounds-head :
      (sha256_hex : List ℕ → String) (t : MemoryTransport) (n limit : ℕ) (channel_id : String)
      (rounds : ℕ) (now : String) (db : Database)
      → IsLinear t
      → exists_group t ≡ true
      → n ≤ length t.publications
      → length t.publications ≤ n + rounds
      → get channel_id db.channel
        ≡ some (record { sync_cursor = cursor_at n t; halted_reason = none })
      → get channel_id (fetch_rounds sha256_hex t limit channel_id rounds now db).channel
        ≡ some (record { sync_cursor = head t; halted_reason = none })
  unfolding fetch_rounds head
  fetch_rounds-head sha256_hex t n limit channel_id zero now db linear present within enough found =
      found
      ∙ ap (λ cursor. some (record { sync_cursor = cursor; halted_reason = none }))
          (cursor_at-end t n (omega (arith, enough)))
  fetch_rounds-head sha256_hex t n limit channel_id (suc rounds) now db linear present within enough
        found =
      fetch_rounds-head sha256_hex t (next_stop n limit t) limit channel_id rounds now
        (fetch_once describe describe_transport (memory sha256_hex) t channel_id limit now db).1
        linear present (ground arith) (ground arith)
        (fetch_once-cursor_at sha256_hex t n limit channel_id now db linear present within found).1
