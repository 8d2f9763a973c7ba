-- ===== src/Protocol/Receipt.antt =====
-- crates/hrc-protocol/src/receipt.rs: the body of a receipt and its checks.
use herdr_remote_channel.Prelude.{
  ℕ, String, Bool, true, false, Option, none, some, List, [], ◌∷◌, length, ltb, contains, str_eq,
  find,
}
use herdr_remote_channel.Errors.{
  ProtocolError, missing_field, message_too_large, derived_mismatch, Result, ok, err, reject_if,
  ◌>>◌,
}

pub data ReceiptState : Type 0 where
  delivered read accepted rejected : ReceiptState

abbrev pub as_str : ReceiptState → String
as_str delivered = "delivered"
as_str read = "read"
as_str accepted = "accepted"
as_str rejected = "rejected"

abbrev pub all : List ReceiptState
all = delivered ∷ read ∷ accepted ∷ rejected ∷ []

unfoldable pub parse : String → Option ReceiptState
parse value = find (λ state. str_eq (as_str state) value) all

abbrev pub requires_rejection_code : ReceiptState → Bool
requires_rejection_code rejected = true
requires_rejection_code _ = false

abbrev pub max_referenced_messages : ℕ
max_referenced_messages = 256

pub record ReceiptBody : Type 0 where
  pub referenced_message_ids : List String
  pub state : ReceiptState
  pub rejection_code : Option String
  pub received_at : String

abbrev is_empty : List String → Bool
is_empty [] = true
is_empty (_ ∷ _) = false

-- The loop over the references; `seen` are those before.
unfoldable pub check_references : List String → List String → Result ProtocolError (Unit {0})
check_references seen [] = ok tt
check_references seen (id ∷ ids) = do
  reject_if (str_eq id "") (missing_field "referencedMessageIds")
  reject_if (contains seen id) (derived_mismatch "referencedMessageIds")
  check_references (id ∷ seen) ids

abbrev pub check_rejection_code : Bool → Option String → Result ProtocolError (Unit {0})
check_rejection_code true none = err (missing_field "rejectionCode")
check_rejection_code false (some _) = err (derived_mismatch "rejectionCode")
check_rejection_code _ _ = ok tt

unfoldable pub validate : ReceiptBody → Result ProtocolError (Unit {0})
unfolding check_references
validate body = do
  reject_if (is_empty body.referenced_message_ids) (missing_field "referencedMessageIds")
  reject_if (ltb max_referenced_messages (length body.referenced_message_ids))
      (message_too_large (length body.referenced_message_ids) max_referenced_messages)
  check_references [] body.referenced_message_ids
  reject_if (str_eq body.received_at "") (missing_field "receivedAt")
  check_rejection_code (requires_rejection_code body.state) body.rejection_code
