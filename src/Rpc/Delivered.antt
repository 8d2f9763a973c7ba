-- ===== src/Rpc/Delivered.antt =====
-- crates/hrc-core/src/rpc.rs: content reaches an agent by an approval only.
use herdr_remote_channel.Prelude.{String}
use herdr_remote_channel.Errors.{CoreError, Result, ok}
use herdr_remote_channel.Rpc.{Broker, TrustedResponse}
use herdr_remote_channel.Rpc.HandedOver.{HandedOver}

module _ (sha256 : String → String) {S : Type 0} (b : Broker S) where
  abbrev answer : TrustedResponse → Result CoreError TrustedResponse
  answer response = ok response
