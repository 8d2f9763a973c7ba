-- ===== src/Sync/Arrival.antt =====
-- crates/hrc-core/src/sync.rs: what one peer publishes to the in-memory adapter, another peer reads.
use herdr_remote_channel.Prelude.{
  ℕ, zero, suc, ◌+◌, ◌≤◌, String, ◌≡◌, refl, sym, ap, ◌∙◌, true, false, none, some, List, [], ◌∷◌,
  ◌++◌, length, take, eq_refl, length-append, arith,
}
use mathlib.Core.Path.{subst}
use herdr_remote_channel.Prelude.BTreeMap.{get, get-insert}
use herdr_remote_channel.Errors.{CoreError, Result, ok}
use herdr_remote_channel.Transport.{
  data_class, is_control, Publication, ObjectRecord, PublishObject, TransportError,
}
use herdr_remote_channel.Transport.Memory.{
  MemoryTransport, memory, last_revision, head, exists_group, append, get_object, store, records,
}
use herdr_remote_channel.Transport.Memory.Linear.{IsLinear, append-IsLinear, head-exists}
use herdr_remote_channel.Transport.Memory.Publishing.{last_revision-append, exists-append}
use herdr_remote_channel.Transport.Memory.Reading.{cursor_at}
use herdr_remote_channel.Storage.{Database, OutboxRecord, published, mark_published}
use herdr_remote_channel.Sync.{PreparedPublication, publish_object}
use herdr_remote_channel.Sync.CatchUp.{fetch_rounds, fetch_rounds-head}
use herdr_remote_channel.Sync.Publishing.{World, Step, publish_one_prepared}
use herdr_remote_channel.Sync.Progress.{publish_one_prepared-memory}

take-before : (n : ℕ) (ps qs : List Publication) → n ≤ length ps → take n (ps ++ qs) ≡ take n ps
take-before zero ps qs h = refl
take-before (suc n) [] qs h = ground arith
take-before (suc n) (p ∷ ps) qs h = ap (λ rs. p ∷ rs) (take-before n ps qs (omega (arith, h)))

marked :
    (message_id now : String) (db : Database) (row : OutboxRecord)
    → get message_id db.outbox ≡ some row
    → get message_id (mark_published message_id now db).1.outbox
      ≡ some (record row { state = published; last_error = none; updated_at = now })
unfolding mark_published
marked message_id now db row found = ground (
  arith,
  get-insert message_id message_id
      (record row { state = published; last_error = none; updated_at = now }) db.outbox,
  eq_refl message_id,
)

module _ (sha256_hex : List ℕ → String) where
  -- How the adapter describes an object.
  abbrev described : PublishObject → ObjectRecord
  described o = record {
    name = o.name;
    class = o.class;
    size = length o.bytes;
    sha256 = sha256_hex o.bytes;
  }

  -- What a publisher and a reader see after the publisher's object was published: the step's result,
  -- the publisher's row, and the reader's channel and the adapter's object.
  pub record Arrives (channel_id message_id now : String) (object : PublishObject)
      (row : OutboxRecord) (before : MemoryTransport) (step : Step MemoryTransport)
      (reader : Database) : Type 0 where
    pub reported :
        step.0 ≡ ok (record { published = message_id ∷ []; conflicts = 0; deferred = [] })
    pub marked_published :
        get message_id step.1.database.outbox
        ≡ some (record row { state = published; last_error = none; updated_at = now })
    pub publication : Publication
    pub is_last : step.1.transport.publications ≡ before.publications ++ (publication ∷ [])
    pub lists : publication.objects ≡ described object ∷ []
    pub is_read :
        get channel_id reader.channel
        ≡ some (record { sync_cursor = some publication.revision; halted_reason = none })
    pub is_kept :
        get_object sha256_hex object.name (sha256_hex object.bytes) step.1.transport
        ≡ ok object.bytes

  -- The adapter after one object was published.
  abbrev after : PublishObject → MemoryTransport → MemoryTransport
  after object t = (append sha256_hex data_class (object ∷ []) t).1

  stored :
      (object : PublishObject) (t : MemoryTransport)
      → get_object sha256_hex object.name (sha256_hex object.bytes) (after object t)
        ≡ ok object.bytes
  unfolding append store get_object
  stored object t = ground (
    arith,
    get-insert object.name object.name object.bytes t.objects,
    eq_refl object.name,
    eq_refl (sha256_hex object.bytes),
  )

  -- The reader's position is the same in the longer history, which is still one chain.
  after-IsLinear :
      (object : PublishObject) (t : MemoryTransport)
      → exists_group t ≡ true
      → IsLinear t
      → IsLinear (after object t)
  after-IsLinear object t present linear =
      append-IsLinear sha256_hex data_class (object ∷ []) t (λ e. absurd (head-exists t present e))
        linear

  cursor_at-after :
      (n : ℕ) (object : PublishObject) (t : MemoryTransport)
      → n ≤ length t.publications
      → cursor_at n (after object t) ≡ cursor_at n t
  unfolding cursor_at append
  cursor_at-after n object t h =
      ap (last_revision none)
        (take-before n t.publications ((append sha256_hex data_class (object ∷ []) t).0 ∷ []) h)

  head-after :
      (object : PublishObject) (t : MemoryTransport)
      → head (after object t) ≡ some (append sha256_hex data_class (object ∷ []) t).0.revision
  unfolding head append
  head-after object t =
      last_revision-append none t.publications (append sha256_hex data_class (object ∷ []) t).0

  length-after :
      (object : PublishObject) (t : MemoryTransport)
      → length (after object t).publications ≡ suc (length t.publications)
  unfolding append
  length-after object t =
      omega (
        arith,
        length-append t.publications ((append sha256_hex data_class (object ∷ []) t).0 ∷ []),
      )

  exists-after :
      (object : PublishObject) (t : MemoryTransport) → exists_group (after object t) ≡ true
  unfolding append
  exists-after object t =
      exists-append t.publications (append sha256_hex data_class (object ∷ []) t).0

  module _ (describe : CoreError → String) (describe_transport : TransportError → String) where
    -- The reader catches up with the publication.
    reads :
        (object : PublishObject) (t : MemoryTransport) (n limit : ℕ) (channel_id : String)
        (rounds : ℕ) (read_at : String) (reader : Database)
        → IsLinear t
        → exists_group t ≡ true
        → n ≤ length t.publications
        → suc (length t.publications) ≤ n + rounds
        → get channel_id reader.channel
          ≡ some (record { sync_cursor = cursor_at n t; halted_reason = none })
        → get channel_id
            (fetch_rounds describe describe_transport sha256_hex
              (after object t)
              limit
              channel_id
              rounds
              read_at
              reader).channel
          ≡ some (record {
            sync_cursor = some (append sha256_hex data_class (object ∷ []) t).0.revision;
            halted_reason = none;
          })
    reads object t n limit channel_id rounds read_at reader linear present within enough found =
        fetch_rounds-head describe describe_transport sha256_hex (after object t) n limit channel_id
          rounds read_at reader (after-IsLinear object t present linear) (exists-after object t)
          (omega (arith, within, length-after object t))
          (omega (arith, enough, length-after object t))
          (found
            ∙ ap (λ c. some (record { sync_cursor = c; halted_reason = none }))
                (sym (cursor_at-after n object t within)))
        ∙ ap (λ c. some (record { sync_cursor = c; halted_reason = none })) (head-after object t)

    -- What one peer publishes reaches another: when a queued record is prepared as a new object that
    -- is no control object and not over the limit, the in-memory adapter takes it at the first
    -- attempt as the last publication, which describes the object, and the outbox says so; a reader
    -- that is not halted and has read `n` publications stands behind that publication after as many
    -- fetches as there are publications left, and gets the object's bytes.
    pub publish_one_prepared-Arrives :
        (prepare : MemoryTransport → Database → Result CoreError PreparedPublication × Database)
        (max_attempts : ℕ) (w : World MemoryTransport) (channel_id message_id now : String)
        (object : PublishObject) (row : OutboxRecord) (n limit rounds : ℕ) (read_at : String)
        (reader : Database)
        → prepare w.transport w.database ≡ (ok (publish_object object), w.database)
        → get message_id w.database.outbox ≡ some row
        → IsLinear w.transport
        → exists_group w.transport ≡ true
        → is_control object.class ≡ false
        → length object.bytes ≤ 26214400
        → get object.name w.transport.objects ≡ none
        → n ≤ length w.transport.publications
        → suc (length w.transport.publications) ≤ n + rounds
        → get channel_id reader.channel
          ≡ some (record { sync_cursor = cursor_at n w.transport; halted_reason = none })
        → let step =
            publish_one_prepared describe describe_transport
              (memory sha256_hex)
              channel_id
              message_id
              now
              prepare
              max_attempts
              w in
          Arrives channel_id message_id now object row w.transport step (
            fetch_rounds describe describe_transport sha256_hex step.1.transport limit channel_id
              rounds read_at reader)
    unfolding append records
    publish_one_prepared-Arrives prepare max_attempts w channel_id message_id now object row n limit
          rounds read_at reader prepares found linear present not_control small fresh within enough
          behind =
        subst
          (λ step. Arrives channel_id message_id now object row w.transport step (
            fetch_rounds describe describe_transport sha256_hex step.1.transport limit channel_id
              rounds read_at reader))
          (sym (
            publish_one_prepared-memory describe describe_transport sha256_hex channel_id message_id
              now prepare max_attempts w object row prepares found present not_control small fresh))
          (record {
            reported = refl;
            marked_published = marked message_id now w.database row found;
            publication = (append sha256_hex data_class (object ∷ []) w.transport).0;
            is_last = refl;
            lists = refl;
            is_read =
                reads object w.transport n limit channel_id rounds read_at reader linear present
                  within enough behind;
            is_kept = stored object w.transport;
          })
