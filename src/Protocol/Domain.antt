-- ===== src/Protocol/Domain.antt =====
-- The signature domains of crates/hrc-protocol/src/lib.rs.
use herdr_remote_channel.Prelude.{String}

abbrev pub genesis : String
genesis = "hrc/v1/genesis"

abbrev pub control : String
control = "hrc/v1/control"

abbrev pub device_certificate : String
device_certificate = "hrc/v1/device-certificate"

abbrev pub message : String
message = "hrc/v1/message"
