-- ===== src/Transport/Examples.antt =====
-- The in-memory adapter on a short history, and its theorems there.
use herdr_remote_channel.Prelude.{ℕ, String, ◌≡◌, refl, some, List, [], ◌∷◌}
use herdr_remote_channel.Prelude.BTreeMap.{get, insert}
use herdr_remote_channel.Prelude.Decimal.{decimal}
use herdr_remote_channel.Errors.{err}
use herdr_remote_channel.Transport.{
  PublishObject, PublishRequest, Publication, control_object, message_object, data_class, conflict,
}
use herdr_remote_channel.Transport.Memory.{
  MemoryTransport, new, create_group, publish, last_revision,
}
use herdr_remote_channel.Transport.Memory.Linear.{
  IsLinear, starts, creates, publishes, Reachable-IsLinear,
}
use herdr_remote_channel.Transport.Memory.Publishing.{publish_keeps_objects, publish_one_winner}

abbrev pub digest : List ℕ → String
digest _ = "digest"

abbrev founding : List PublishObject
founding = record { name = "genesis"; class = control_object; bytes = 1 ∷ [] } ∷ []

abbrev say : String → ℕ → PublishRequest
say revision n = record {
  expected_revision = some revision;
  class = data_class;
  objects = record { name = "hello"; class = message_object; bytes = n ∷ [] } ∷ [];
}

abbrev pub founded : MemoryTransport
founded = (create_group digest founding (new "group")).1

abbrev pub spoken : MemoryTransport
spoken = (publish digest (say "rev-00000001" 2) founded).1

pub spoken-IsLinear : IsLinear spoken
spoken-IsLinear =
    Reachable-IsLinear digest (publishes (say "rev-00000001" 2) (creates founding (starts "group")))

Reachable-IsLinear_example : IsLinear founded
Reachable-IsLinear_example = Reachable-IsLinear digest (creates founding (starts "group"))

abbrev first_message : Publication
first_message = record {
  revision = "rev-00000002";
  parent_revision = some "rev-00000001";
  class = data_class;
  transport_time = "2026-09-13T00:00:02Z";
  objects = record { name = "hello"; class = message_object; size = 1; sha256 = "digest" } ∷ [];
}

publish_one_winner_example :
    (publish digest (say "rev-00000001" 3) (publish digest (say "rev-00000001" 2) founded).1).0
    ≡ err (conflict (some "rev-00000002"))
publish_one_winner_example =
    publish_one_winner digest (say "rev-00000001" 2) (say "rev-00000001" 3) founded first_message
      (Reachable-IsLinear digest (creates founding (starts "group")))
      (unfold create_group publish get last_revision decimal insert in refl) refl refl

publish_keeps_objects_example :
    get "hello" (publish digest (say "rev-00000002" 9) spoken).1.objects ≡ some (2 ∷ [])
publish_keeps_objects_example =
    publish_keeps_objects digest (say "rev-00000002" 9) spoken "hello" (2 ∷ [])
      (unfold create_group publish get last_revision decimal insert in refl)
