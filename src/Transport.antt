-- ===== src/Transport.antt =====
-- crates/hrc-transport/src/lib.rs: what a transport carries, and the rules that every adapter
-- enforces on a publication.
pub mod Memory
pub mod Examples
use Prim.Native.String.{◌++◌}
use herdr_remote_channel.Prelude.{
  ℕ, String, Bool, true, false, not, ◌||◌, Option, none, some, List, [], ◌∷◌, contains, str_eq,
  find, if◌then◌else◌,
}
use herdr_remote_channel.Errors.{Result, ok, err, reject_if, ◌>>=◌, ◌>>◌}

pub data PublicationClass : Type 0 where
  genesis control data_class : PublicationClass

abbrev pub is_genesis : PublicationClass → Bool
is_genesis genesis = true
is_genesis _ = false

abbrev pub publication_class_name : PublicationClass → String
publication_class_name genesis = "genesis"
publication_class_name control = "control"
publication_class_name data_class = "data"

pub data ObjectClass : Type 0 where
  control_object protocol_object join_object message_object blob_object snapshot_object :
      ObjectClass

abbrev pub object_class_name : ObjectClass → String
object_class_name control_object = "control"
object_class_name protocol_object = "protocol"
object_class_name join_object = "join"
object_class_name message_object = "message"
object_class_name blob_object = "blob"
object_class_name snapshot_object = "snapshot"

unfoldable pub is_control : ObjectClass → Bool
is_control control_object = true
is_control protocol_object = true
is_control _ = false

-- `bytes` is a `Vec<u8>`: a list of numbers.
pub record PublishObject : Type 0 where
  pub name : String
  pub class : ObjectClass
  pub bytes : List ℕ

pub record ObjectRecord : Type 0 where
  pub name : String
  pub class : ObjectClass
  pub size : ℕ
  pub sha256 : String

pub record Publication : Type 0 where
  pub revision : String
  pub parent_revision : Option String
  pub class : PublicationClass
  pub transport_time : String
  pub objects : List ObjectRecord

abbrev pub linear_append_only : String
linear_append_only = "linear_append_only"

pub record GroupState : Type 0 where
  pub group_id : String
  pub revision : Option String
  pub history_model : String

pub record FetchPage : Type 0 where
  pub publications : List Publication
  pub cursor : Option String
  pub more : Bool
  pub anomalies : List String

pub data TransportError : Type 0 where
  conflict : (current : Option String) → TransportError
  no_such_group group_exists : TransportError
  no_such_object object_hash_mismatch invalid_publication provider : String → TransportError
  object_too_large : String → ℕ → ℕ → TransportError

pub record PublishRequest : Type 0 where
  pub expected_revision : Option String
  pub class : PublicationClass
  pub objects : List PublishObject

-- `names.insert(name, ()).is_some()` over the objects in turn; `names` are those before.
abbrev pub repeated : List String → List PublishObject → Option String
repeated names [] = none
repeated names (o ∷ objects) =
    let rest = repeated (o.name ∷ names) objects in
    if contains names o.name then some o.name else rest

abbrev is_empty : List PublishObject → Bool
is_empty [] = true
is_empty (_ ∷ _) = false

-- An error for the object that was found, if one was.
abbrev refuse {ℓ} : {A : Type ℓ} → Option A → (A → String) → Result TransportError (Unit {0})
refuse none reason = ok tt
refuse (some a) reason = err (invalid_publication (reason a))

abbrev pub misplaced : PublicationClass → PublishObject → Bool
misplaced data_class o = is_control o.class
misplaced _ o = not (is_control o.class)

abbrev pub cannot_carry : PublicationClass → PublishObject → String
cannot_carry class o =
    "a "
    ++ (publication_class_name class
        ++ (" publication cannot carry a " ++ (object_class_name o.class ++ " object")))

unfoldable pub validate_publication : PublishRequest → Result TransportError (Unit {0})
unfolding is_control
validate_publication request = do
  reject_if (is_empty request.objects)
      (invalid_publication "a publication must contain at least one object")
  refuse (repeated [] request.objects) λ name. "object name " ++ (name ++ " appears twice")
  refuse (find (misplaced request.class) request.objects) (cannot_carry request.class)

-- The trait `Transport`, of an adapter whose state is `T`; `capabilities`, `get_object`, `health` and
-- `wait` are not used through it here.
pub record Transport (T : Type 0) : Type 0 where
  pub create_group : List PublishObject → T → Result TransportError Publication × T
  pub open_group : T → Result TransportError GroupState
  pub publish : PublishRequest → T → Result TransportError Publication × T
  pub fetch : Option String → ℕ → T → Result TransportError FetchPage
