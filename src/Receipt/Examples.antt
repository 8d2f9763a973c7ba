-- ===== src/Receipt/Examples.antt =====
-- Tests of receipts and answers on two sent messages, and their theorems there.
use herdr_remote_channel.Prelude.{
  String, ◌≤◌, ◌≡◌, refl, none, some, List, [], ◌∷◌, map, All, length,
}
use herdr_remote_channel.Errors.{err, receipt_from_non_recipient}
use herdr_remote_channel.Protocol.Envelope.{MessageEnvelope}
use herdr_remote_channel.Protocol.Receipt.{ReceiptBody, read, validate}
use herdr_remote_channel.Gate.Examples.{envelope, message}
use herdr_remote_channel.Receipt.{SentMessage, verified_as, accept_receipt}
use herdr_remote_channel.Receipt.Accepted.{Verifies, id_of, Distinct, accept_receipt-Verifies}

abbrev sent : List SentMessage
sent =
    record { message_id = "q"; recipient_device_ids = "d" ∷ []; thread_id = "t"; kind = "question" }
    ∷ record {
      message_id = "n";
      recipient_device_ids = "other" ∷ [];
      thread_id = "t";
      kind = "note";
    }
    ∷ []

abbrev has_read : List String → ReceiptBody
has_read ids = record {
  referenced_message_ids = ids;
  state = read;
  rejection_code = none;
  received_at = "2026-01-01";
}

accept_receipt-Verifies_example :
    All
      (Verifies message (has_read ("q" ∷ [])) sent)
      (verified_as message (has_read ("q" ∷ [])) "q" ∷ [])
    × (map id_of (verified_as message (has_read ("q" ∷ [])) "q" ∷ []) ≡ "q" ∷ [])
    × Distinct ("q" ∷ [])
    × (length {A = String} ("q" ∷ []) ≤ 256)
accept_receipt-Verifies_example =
    accept_receipt-Verifies message (has_read ("q" ∷ [])) sent
      (verified_as message (has_read ("q" ∷ [])) "q" ∷ []) (unfold accept_receipt validate in refl)

-- One message that was not sent to the reporting device refuses the whole receipt.
refused_as_a_whole :
    accept_receipt message (has_read ("q" ∷ "n" ∷ [])) sent
    ≡ err (receipt_from_non_recipient "n" "d")
unfolding accept_receipt validate
refused_as_a_whole = refl

abbrev answer : MessageEnvelope
answer = record envelope { kind = "answer"; in_reply_to = some "q"; thread_id = "t" }
