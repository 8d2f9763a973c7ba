-- ===== src/Transport/Memory.antt =====
-- crates/hrc-transport/src/memory.rs: the in-memory reference adapter.
pub mod Linear
pub mod Publishing
pub mod Reading
use Prim.Native.String.{◌++◌}
use herdr_remote_channel.Prelude.{
  ℕ, suc, ◌+◌, ◌-◌, ◌*◌, String, Bool, true, false, not, ◌&&◌, Option, none, some, List, [], ◌∷◌,
  ◌++◌ as append_list, length, ltb, bytes_eq, drop, take, leb, str_eq, if◌then◌else◌,
}
use herdr_remote_channel.Prelude.BTreeMap.{BTreeMap, get, insert}
use herdr_remote_channel.Prelude.Decimal.{decimal}
use herdr_remote_channel.Errors.{Result, ok, err, is_ok, ok_or, reject_if, try_then, ◌>>=◌, ◌>>◌}
use herdr_remote_channel.Transport.{
  Transport, PublicationClass, genesis, is_genesis, PublishObject, ObjectRecord, Publication,
  FetchPage, GroupState, linear_append_only, TransportError, conflict, no_such_group, group_exists,
  no_such_object, object_hash_mismatch, invalid_publication, object_too_large, PublishRequest,
  validate_publication,
}

abbrev pub max_object_bytes : ℕ
max_object_bytes = 25 * (1024 * 1024)

abbrev pub max_objects_per_publication : ℕ
max_objects_per_publication = 1024

pub record MemoryTransport : Type 0 where
  pub group_id : String
  pub publications : List Publication
  pub objects : BTreeMap (List ℕ)
  pub next_revision : ℕ
  pub next_time : ℕ

abbrev pub new : String → MemoryTransport
new group_id = record {
  group_id = group_id;
  publications = [];
  objects = [];
  next_revision = 0;
  next_time = 0;
}

-- `last().map(|p| p.revision.clone())`.
unfoldable pub last_revision : Option String → List Publication → Option String
last_revision before [] = before
last_revision before (p ∷ ps) = last_revision (some p.revision) ps

unfoldable pub head : MemoryTransport → Option String
head t = last_revision none t.publications

abbrev pub exists_group : MemoryTransport → Bool
exists_group t = elim t.publications [ [] ↦ false | p ∷ ps ↦ true ]

abbrev pub same_revision : Option String → Option String → Bool
same_revision none none = true
same_revision (some a) (some b) = str_eq a b
same_revision _ _ = false

abbrev pub differs : Option (List ℕ) → List ℕ → Bool
differs none bytes = false
differs (some existing) bytes = not (bytes_eq existing bytes)

-- The loop of `check_objects`.
unfoldable pub check_each :
    BTreeMap (List ℕ) → List PublishObject → Result TransportError (Unit {0})
check_each stored [] = ok tt
check_each stored (o ∷ objects) = do
  reject_if (ltb max_object_bytes (length o.bytes))
      (object_too_large o.name (length o.bytes) max_object_bytes)
  reject_if (differs (get o.name stored) o.bytes)
      (invalid_publication ("object " ++ (o.name ++ " already exists with different content")))
  check_each stored objects

unfoldable pub store : BTreeMap (List ℕ) → List PublishObject → BTreeMap (List ℕ)
store stored [] = stored
store stored (o ∷ objects) = store (insert o.name o.bytes stored) objects

-- The position after the publication with the given revision.
unfoldable pub position : String → List Publication → Option ℕ
position revision [] = none
position revision (p ∷ ps) =
    let rest = position revision ps in
    if str_eq p.revision revision then some 0 else elim rest [ none ↦ none | some n ↦ some (suc n) ]

abbrev pub revision_name : ℕ → String
revision_name n = "rev-" ++ decimal 8 n

abbrev transport_time : ℕ → String
transport_time n = "2026-09-13T00:00:" ++ (decimal 2 (if leb n 59 then n else 59) ++ "Z")

-- `sha256_hex` is hrc_protocol's digest of bytes.
module _ (sha256_hex : List ℕ → String) where
  unfoldable pub records : List PublishObject → List ObjectRecord
  records [] = []
  records (o ∷ objects) =
      record { name = o.name; class = o.class; size = length o.bytes; sha256 = sha256_hex o.bytes }
      ∷ records objects

  unfoldable pub append :
      PublicationClass → List PublishObject → MemoryTransport → Publication × MemoryTransport
  unfolding head records store
  append class objects t =
      let publication : Publication = record {
        revision = revision_name (suc t.next_revision);
        parent_revision = head t;
        class = class;
        transport_time = transport_time (suc t.next_time);
        objects = records objects;
      } in
      (
        publication,
        record {
          group_id = t.group_id;
          publications = append_list t.publications (publication ∷ []);
          objects = store t.objects objects;
          next_revision = suc t.next_revision;
          next_time = suc t.next_time;
        },
      )

  unfoldable pub check_objects :
      MemoryTransport → List PublishObject → Result TransportError (Unit {0})
  unfolding check_each
  check_objects t objects = do
    reject_if (ltb max_objects_per_publication (length objects)) (
        invalid_publication (
          decimal 1 (length objects)
          ++ (" objects exceeds the "
              ++ (decimal 1 max_objects_per_publication ++ " object limit"))))
    check_each t.objects objects

  unfoldable pub create_group :
      List PublishObject → MemoryTransport → Result TransportError Publication × MemoryTransport
  unfolding append check_objects validate_publication
  create_group objects t =
      try_then
        (do
          reject_if (exists_group t) group_exists
          validate_publication
              (record { expected_revision = none; class = genesis; objects = objects })
          check_objects t objects)
        t λ _. let (publication, t') = append genesis objects t in (ok publication, t')

  unfoldable pub open_group : MemoryTransport → Result TransportError GroupState
  unfolding head
  open_group t = do
    reject_if (not (exists_group t)) no_such_group
    ok (record { group_id = t.group_id; revision = head t; history_model = linear_append_only })

  -- The checks of `publish`, in order.
  unfoldable pub check_request : PublishRequest → MemoryTransport → Result TransportError (Unit {0})
  unfolding head validate_publication check_objects
  check_request request t = do
    reject_if (not (exists_group t)) no_such_group
    reject_if (is_genesis request.class)
        (invalid_publication "genesis can only be published by creating the channel")
    reject_if (not (same_revision request.expected_revision (head t))) (conflict (head t))
    validate_publication request
    check_objects t request.objects

  unfoldable pub publish :
      PublishRequest → MemoryTransport → Result TransportError Publication × MemoryTransport
  unfolding append check_request
  publish request t =
      try_then (check_request request t) t
        λ _. let (publication, t') = append request.class request.objects t in (ok publication, t')

  unfoldable pub get_object : String → String → MemoryTransport → Result TransportError (List ℕ)
  get_object name expected_sha256 t = do
    bytes ← ok_or (get name t.objects) (no_such_object name)
    reject_if (not (str_eq (sha256_hex bytes) expected_sha256)) (object_hash_mismatch name)
    ok bytes

-- Where `fetch` starts reading.
unfoldable pub start_after : Option String → MemoryTransport → Result TransportError ℕ
unfolding position
start_after none t = ok 0
start_after (some revision) t = elim (position revision t.publications) [
  | none ↦ err (invalid_publication ("cursor " ++ (revision ++ " is not part of this history")))
  | some n ↦ ok (suc n)
]

abbrev pub max : ℕ → ℕ → ℕ
max a b = if leb a b then b else a

abbrev pub min : ℕ → ℕ → ℕ
min a b = if leb a b then a else b

-- The sum is one in `usize` in the code; here it has no bound.
unfoldable pub fetch : Option String → ℕ → MemoryTransport → Result TransportError FetchPage
unfolding start_after last_revision
fetch after limit t = do
  reject_if (not (exists_group t)) no_such_group
  start ← start_after after t
  let end = min (length t.publications) (start + max limit 1)
  let publications = take (end - start) (drop start t.publications)
  ok (record {
    publications = publications;
    cursor = last_revision after publications;
    more = ltb end (length t.publications);
    anomalies = [];
  })

-- `impl Transport for MemoryTransport`.
abbrev pub memory : (List ℕ → String) → Transport MemoryTransport
memory sha256_hex = record {
  create_group = create_group sha256_hex;
  open_group = open_group sha256_hex;
  publish = publish sha256_hex;
  fetch = fetch;
}
