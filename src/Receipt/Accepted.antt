-- ===== src/Receipt/Accepted.antt =====
-- What an accepted receipt and a correlated answer establish about the messages that were sent.
use mathlib.Core.List.{Memᴰ}
use mathlib.Core.Path.{subst}
use herdr_remote_channel.Prelude.{
  ◌≤◌, String, ◌≡◌, refl, true, false, some, List, [], ◌∷◌, map, All, length, contains, str_eq,
  eq_iff, eq_refl, arith, inl, inr, ap, Bool-cases, Option-cases,
}
use herdr_remote_channel.Errors.{ok, Result-cases}
use herdr_remote_channel.Protocol.Kind
use herdr_remote_channel.Protocol.Envelope.{MessageEnvelope}
use herdr_remote_channel.Protocol.Receipt.{ReceiptBody, validate, check_references}
use herdr_remote_channel.Gate.{QuarantinedMessage}
use herdr_remote_channel.Receipt.{
  SentMessage, VerifiedReceipt, verified_as, find_sent, verify_references, accept_receipt,
  correlate_answer,
}

find_sent-Memᴰ :
    (message_id : String) (sent : List SentMessage) {m : SentMessage}
    → find_sent message_id sent ≡ some m
    → Memᴰ m sent × (m.message_id ≡ message_id)
find_sent-Memᴰ message_id [] h = cc
find_sent-Memᴰ message_id (x ∷ xs) h = elim (Bool-cases (str_eq x.message_id message_id)) [
  | inl same ↦ (Memᴰ.head (ground arith), ground (arith, eq_iff x.message_id message_id))
  | inr other ↦
      let (member, named) = find_sent-Memᴰ message_id xs (ground arith) in (Memᴰ.tail member, named)
]

-- A verified receipt is for a message that was sent to the device that reports it, and carries the
-- authenticated sender with the state that the body reports.
pub record Verifies (receipt : QuarantinedMessage) (body : ReceiptBody) (sent : List SentMessage)
    (v : VerifiedReceipt) : Type 0 where
  pub original : SentMessage
  pub member : Memᴰ original sent
  pub named : original.message_id ≡ v.message_id
  pub addressed : contains original.recipient_device_ids receipt.sender_device ≡ true
  pub principal : v.reporter_principal ≡ receipt.sender_principal
  pub device : v.reporter_device ≡ receipt.sender_device
  pub state : v.state ≡ body.state
  pub code : v.rejection_code ≡ body.rejection_code

abbrev pub id_of : VerifiedReceipt → String
id_of v = v.message_id

verify_references-Verifies :
    (receipt : QuarantinedMessage) (body : ReceiptBody) (sent : List SentMessage)
    (ids : List String) (verified : List VerifiedReceipt)
    → verify_references receipt body sent ids ≡ ok verified
    → All (Verifies receipt body sent) verified × (map id_of verified ≡ ids)
unfolding verify_references
verify_references-Verifies receipt body sent [] [] h = (tt, refl)
verify_references-Verifies receipt body sent [] (v ∷ vs) h = cc
verify_references-Verifies receipt body sent (id ∷ ids) verified h =
    elim (Option-cases (find_sent id sent)) [
      | inl absent ↦ ground arith
      | inr (original, found) ↦ elim (Result-cases (verify_references receipt body sent ids)) [
        | inl (rest, e) ↦
            let (verified_rest, ids_rest) =
              verify_references-Verifies receipt body sent ids rest e in
            let (member, named) = find_sent-Memᴰ id sent found in
            subst (λ vs. All (Verifies receipt body sent) vs × (map id_of vs ≡ id ∷ ids))
              {x = verified_as receipt body id ∷ rest} (ground arith)
              (
                (
                  record {
                    original = original;
                    member = member;
                    named = named;
                    addressed = ground arith;
                    principal = refl;
                    device = refl;
                    state = refl;
                    code = refl;
                  },
                  verified_rest,
                ),
                ap (λ l. id ∷ l) ids_rest,
              )
        | inr (x, e) ↦ ground arith
      ]
    ]

-- No text occurs twice.
abbrev pub Distinct : List String → Type 0
Distinct [] = Unit
Distinct (x ∷ xs) = (contains xs x ≡ false) × Distinct xs

check_references-apart :
    (seen ids : List String) {u : Unit {0}} (x : String)
    → check_references seen ids ≡ ok u
    → contains seen x ≡ true
    → contains ids x ≡ false
unfolding check_references
check_references-apart seen [] x h before = refl
check_references-apart seen (id ∷ ids) x h before =
    ground (arith, check_references-apart (id ∷ seen) ids x, eq_iff id x, eq_iff x id)

check_references-Distinct :
    (seen ids : List String) {u : Unit {0}} → check_references seen ids ≡ ok u → Distinct ids
unfolding check_references
check_references-Distinct seen [] h = tt
check_references-Distinct seen (id ∷ ids) h = (
  check_references-apart (id ∷ seen) ids id (ground arith) (ground (arith, eq_refl id)),
  check_references-Distinct (id ∷ seen) ids (ground arith),
)

-- A receipt that is accepted yields one verified receipt for each message that its body names, in
-- order; each such message was sent to the device that reports it. The names are different, and
-- there are at most 256.
pub accept_receipt-Verifies :
    (receipt : QuarantinedMessage) (body : ReceiptBody) (sent : List SentMessage)
    (verified : List VerifiedReceipt)
    → accept_receipt receipt body sent ≡ ok verified
    → All (Verifies receipt body sent) verified
      × (map id_of verified ≡ body.referenced_message_ids)
      × Distinct body.referenced_message_ids
      × (length body.referenced_message_ids ≤ 256)
unfolding accept_receipt validate
accept_receipt-Verifies receipt body sent verified h =
    let (each, ids) =
      verify_references-Verifies receipt body sent body.referenced_message_ids verified
        (ground arith) in
    (
      each,
      ids,
      check_references-Distinct [] body.referenced_message_ids (ground arith),
      ground arith,
    )

-- A correlated answer is an answer in the thread of a question that was sent, and names it.
pub record Correlates (answer : MessageEnvelope) (sent : List SentMessage) (id : String)
    : Type 0 where
  pub question : SentMessage
  pub member : Memᴰ question sent
  pub named : question.message_id ≡ id
  pub replies : answer.in_reply_to ≡ some id
  pub is_answer : answer.kind ≡ Kind.as_str Kind.answer
  pub is_question : question.kind ≡ Kind.as_str Kind.question
  pub thread : question.thread_id ≡ answer.thread_id

-- An answer is accepted only if it is one by its kind and names a question that was sent from here,
-- in the same thread; the result is that question's identifier.
pub correlate_answer-Correlates :
    (answer : MessageEnvelope) (sent : List SentMessage) (id : String)
    → correlate_answer answer sent ≡ ok id
    → Correlates answer sent id
unfolding correlate_answer
correlate_answer-Correlates answer sent id h = elim (Option-cases answer.in_reply_to) [
  | inl none_named ↦ ground arith
  | inr (reply, replies) ↦ elim (Option-cases (find_sent reply sent)) [
    | inl absent ↦ ground arith
    | inr (question, found) ↦
        let (member, named) = find_sent-Memᴰ reply sent found in
        record {
          question = question;
          member = member;
          named = ground arith;
          replies = ground arith;
          is_answer = ground (arith, eq_iff answer.kind (Kind.as_str Kind.answer));
          is_question = ground (arith, eq_iff question.kind (Kind.as_str Kind.question));
          thread = ground (arith, eq_iff question.thread_id answer.thread_id);
        }
  ]
]
