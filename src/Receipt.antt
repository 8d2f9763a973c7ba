-- ===== src/Receipt.antt =====
-- crates/hrc-core/src/receipt.rs: which receipts and answers count, given the messages that were sent.
pub mod Accepted
mod Examples
use herdr_remote_channel.Prelude.{
  ℕ, String, ◌≡◌, refl, Bool, true, false, not, Option, none, some, List, [], ◌∷◌, map, All,
  contains, str_eq, find, eq_iff, arith, inl, inr,
}
use herdr_remote_channel.Errors.{
  CoreError, protocol, receipt_for_unknown_message, receipt_from_non_recipient, not_an_answer,
  uncorrelated_answer, Result, ok, err, ok_or, reject_if, map_err, ◌>>=◌, ◌>>◌, Result-cases,
}
use herdr_remote_channel.Protocol.Kind
use herdr_remote_channel.Protocol.Envelope.{MessageEnvelope}
use herdr_remote_channel.Protocol.Receipt.{ReceiptState, ReceiptBody, validate, rejected}
use herdr_remote_channel.Gate.{QuarantinedMessage}

pub record SentMessage : Type 0 where
  pub message_id : String
  pub recipient_device_ids : List String
  pub thread_id : String
  pub kind : String

pub record VerifiedReceipt : Type 0 where
  pub message_id : String
  pub reporter_principal : String
  pub reporter_device : String
  pub state : ReceiptState
  pub rejection_code : Option String
  pub reported_at : String

unfoldable pub build_receipt : List String → ReceiptState → String → Result CoreError ReceiptBody
build_receipt referenced state received_at = do
  let body : ReceiptBody = record {
    referenced_message_ids = referenced;
    state = state;
    rejection_code = none;
    received_at = received_at;
  }
  map_err protocol (validate body)
  ok body

unfoldable pub build_rejection : List String → String → String → Result CoreError ReceiptBody
build_rejection referenced code received_at = do
  let body : ReceiptBody = record {
    referenced_message_ids = referenced;
    state = rejected;
    rejection_code = some code;
    received_at = received_at;
  }
  map_err protocol (validate body)
  ok body

abbrev pub find_sent : String → List SentMessage → Option SentMessage
find_sent message_id sent = find (λ candidate. str_eq candidate.message_id message_id) sent

abbrev pub verified_as : QuarantinedMessage → ReceiptBody → String → VerifiedReceipt
verified_as receipt body message_id = record {
  message_id = message_id;
  reporter_principal = receipt.sender_principal;
  reporter_device = receipt.sender_device;
  state = body.state;
  rejection_code = body.rejection_code;
  reported_at = body.received_at;
}

-- The loop of `accept_receipt`.
unfoldable pub verify_references :
    QuarantinedMessage
    → ReceiptBody
    → List SentMessage
    → List String
    → Result CoreError (List VerifiedReceipt)
verify_references receipt body sent [] = ok []
verify_references receipt body sent (message_id ∷ ids) = do
  original ← ok_or (find_sent message_id sent) (receipt_for_unknown_message message_id)
  reject_if (not (contains original.recipient_device_ids receipt.sender_device))
      (receipt_from_non_recipient message_id receipt.sender_device)
  rest ← verify_references receipt body sent ids
  ok (verified_as receipt body message_id ∷ rest)

unfoldable pub accept_receipt :
    QuarantinedMessage → ReceiptBody → List SentMessage → Result CoreError (List VerifiedReceipt)
unfolding verify_references
accept_receipt receipt body sent = do
  map_err protocol (validate body)
  verify_references receipt body sent body.referenced_message_ids

unfoldable pub correlate_answer : MessageEnvelope → List SentMessage → Result CoreError String
correlate_answer answer sent = do
  reject_if (not (str_eq answer.kind (Kind.as_str Kind.answer))) (not_an_answer answer.kind)
  in_reply_to ← ok_or answer.in_reply_to (uncorrelated_answer "the answer names no question")
  question ←
      ok_or (find_sent in_reply_to sent)
        (uncorrelated_answer "the named question was not sent from this installation")
  reject_if (not (str_eq question.kind (Kind.as_str Kind.question)))
      (uncorrelated_answer "the named message is not a question")
  reject_if (not (str_eq question.thread_id answer.thread_id))
      (uncorrelated_answer "the answer is in a different thread from its question")
  ok question.message_id
