-- ===== src/Outbox/Numbered.antt =====
-- crates/hrc-storage/src/outbox.rs: no message takes a number that its device was not given.
use herdr_remote_channel.Prelude.{String, List, All}
use herdr_remote_channel.Errors.{ProtocolError, StorageError, Result}
use herdr_remote_channel.Outbox.{Tables, ChainLink}
use herdr_remote_channel.Outbox.Step.{Steps}
use herdr_remote_channel.Outbox.Evolves.{IsGiven, still-IsGiven}
use herdr_remote_channel.Outbox.Preserved.{Steps-Evolves}

-- The number of each row is at most the last one that its device was given in its channel.
abbrev pub IsNumbered : Tables → Type 0
IsNumbered t = All (IsGiven t.device_sequence) t.outbox

module _ {ℓ} {E : Type ℓ} (hash_link : ChainLink → Result ProtocolError String)
    (hash_ids : List String → Result ProtocolError String) (from : StorageError → E) where
  -- Whatever operations run, successful or not, no row takes a number that its device was not given
  -- in its channel: the numbers given out stay at or above those of all rows.
  pub Steps-IsNumbered :
      (t u : Tables) → Steps hash_link hash_ids from t u → IsNumbered t → IsNumbered u
  Steps-IsNumbered t u steps =
      let e = Steps-Evolves hash_link hash_ids from steps in
      still-IsGiven t.device_sequence u.device_sequence t.outbox u.outbox e.numbers e.rows
