-- ===== src/Outbox/Recipients.antt =====
-- crates/hrc-protocol/src/recipients.rs: the sorted set of the devices that a message is sent to.
use herdr_remote_channel.Prelude.{String, List, [], ◌∷◌, str_eq, str_lt, if◌then◌else◌}
use herdr_remote_channel.Errors.{ProtocolError, empty_recipient_set, Result, ok, err, ◌>>=◌, ◌>>◌}
use herdr_remote_channel.Protocol.Canonical.{expect_hex_digest}
use herdr_remote_channel.Protocol.Envelope.{RecipientDevices}

-- `sort_unstable` on texts.
abbrev pub insert_sorted : String → List String → List String
insert_sorted id [] = id ∷ []
insert_sorted id (x ∷ xs) =
    let rest = insert_sorted id xs in if str_lt x id then x ∷ rest else id ∷ x ∷ xs

unfoldable pub sort_ids : List String → List String
sort_ids [] = []
sort_ids (id ∷ ids) = insert_sorted id (sort_ids ids)

-- `dedup`: of equal neighbours, one stays.
abbrev pub keep_first : String → List String → List String
keep_first id [] = id ∷ []
keep_first id (x ∷ xs) = if str_eq id x then x ∷ xs else id ∷ x ∷ xs

unfoldable pub dedup : List String → List String
dedup [] = []
dedup (id ∷ ids) = keep_first id (dedup ids)

abbrev pub check_ids : List String → Result ProtocolError (Unit {0})
check_ids [] = ok tt
check_ids (id ∷ ids) = expect_hex_digest "recipientDeviceIds" id 32 >> check_ids ids

abbrev pub reject_empty : List String → Result ProtocolError (Unit {0})
reject_empty [] = err empty_recipient_set
reject_empty (_ ∷ _) = ok tt

-- `RecipientDevices::new`, over `canonical_sha256_hex` at a list of texts.
unfoldable pub recipient_devices :
    (List String → Result ProtocolError String)
    → List String
    → Result ProtocolError RecipientDevices
unfolding sort_ids dedup
recipient_devices hash device_ids = do
  let ids = dedup (sort_ids device_ids)
  reject_empty ids
  check_ids ids
  devices_hash ← hash ids
  ok (record { device_ids = ids; devices_hash = devices_hash })
