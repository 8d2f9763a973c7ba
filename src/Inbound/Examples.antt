-- ===== src/Inbound/Examples.antt =====
-- Tests of `record_inbound` on three messages of one device, and its theorems there.
use herdr_remote_channel.Prelude.{ℕ, String, ◌≡◌, ◌≢◌, refl, false, Option, none, some, [], ◌∷◌}
use herdr_remote_channel.Errors.{StorageError, Result, ok}
use herdr_remote_channel.Inbound.{InboundMessage, InboundOutcome, accepted, duplicate, held, Tables}
use herdr_remote_channel.Inbound.Arrivals.{arrival}
use herdr_remote_channel.Inbound.Record.{record_inbound}
use herdr_remote_channel.Inbound.Total.{record_inbound_total}
use herdr_remote_channel.Inbound.Stable.{record_inbound-arrival}
use herdr_remote_channel.Inbound.Redelivery.{used_elsewhere, record_inbound-record_inbound}
use herdr_remote_channel.Inbound.Order.{InOrder, record_inbound-InOrder}

abbrev no_tables : Tables
no_tables = record {
  inbox = [];
  inbound_hold = [];
  inbound_receipt_link = [];
  inbound_recipient_link = [];
  inbound_chain = [];
  inbound_recipient_chain = [];
  inbound_context = [];
}

abbrev from_alice : String → ℕ → String → Option String → InboundMessage
from_alice id sequence link previous = record {
  channel_id = "c";
  message_id = id;
  sender_principal = "alice";
  sender_device = "laptop";
  device_sequence = sequence;
  chain_id = link;
  previous_chain_id = previous;
  recipient_device = none;
  recipient_previous_chain_id = none;
  kind = "text";
  thread_id = none;
  in_reply_to = none;
  roster_epoch = 1;
  endpoint = none;
  ciphertext_bytes = 9;
  plaintext_bytes = 3;
  ciphertext_sha256 = id;
  created_at = "t0";
  expires_at = none;
  expired = false;
  attachment_count = 0;
  attachment_bytes = 0;
  prompt_request = false;
  body = 1 ∷ [];
  ciphertext = 2 ∷ [];
  context = none;
}

abbrev first : InboundMessage
first = from_alice "m1" 1 "k1" none

abbrev second : InboundMessage
second = from_alice "m2" 2 "k2" (some "k1")

abbrev third : InboundMessage
third = from_alice "m3" 3 "k3" (some "k2")

abbrev state_after : Option (Result StorageError InboundOutcome × Tables) → Tables
state_after none = no_tables
state_after (some r) = r.1

-- The third message arrives first and waits; the first is accepted; the second releases the third.
abbrev waiting_third : Tables
waiting_third = state_after (record_inbound third "t1" no_tables)

abbrev with_first : Tables
with_first = state_after (record_inbound first "t2" waiting_third)

third_waits : record_inbound third "t1" no_tables ≡ some (ok (held "k2"), waiting_third)
unfolding record_inbound arrival used_elsewhere
third_waits = refl

first_enters : record_inbound first "t2" waiting_third ≡ some (ok (accepted 1 []), with_first)
unfolding record_inbound arrival used_elsewhere
first_enters = refl

abbrev with_all : Tables
with_all = state_after (record_inbound second "t3" with_first)

second_releases :
    record_inbound second "t3" with_first ≡ some (ok (accepted 2 ("m3" ∷ [])), with_all)
unfolding record_inbound arrival used_elsewhere
second_releases = refl

record_inbound_total_example : record_inbound second "t3" with_first ≢ none
record_inbound_total_example = record_inbound_total second "t3" with_first

record_inbound-arrival_example : arrival "m1" with_all.inbox ≡ some 1
unfolding record_inbound arrival used_elsewhere
record_inbound-arrival_example =
    record_inbound-arrival second "t3" with_first with_all (ok (accepted 2 ("m3" ∷ []))) "m1" 1
      second_releases refl

record_inbound-record_inbound_example :
    record_inbound second "t9" with_all ≡ some (ok duplicate, with_all)
unfolding record_inbound arrival used_elsewhere
record_inbound-record_inbound_example =
    record_inbound-record_inbound second "t3" "t9" with_first with_all (accepted 2 ("m3" ∷ [])) refl
      refl second_releases

record_inbound-InOrder_example : InOrder second with_first (accepted 2 ("m3" ∷ []))
record_inbound-InOrder_example =
    record_inbound-InOrder second "t3" with_first with_all (accepted 2 ("m3" ∷ [])) refl
      second_releases

-- A second successor of the first message, with a sequence and a link of its own, is held for a
-- predecessor that has already been accepted.
rival_waits :
    record_inbound (from_alice "m4" 4 "k4" (some "k1")) "t5" with_all
    ≡ some (
      ok (held "k1"),
      state_after (record_inbound (from_alice "m4" 4 "k4" (some "k1")) "t5" with_all),
    )
unfolding record_inbound arrival used_elsewhere
rival_waits = refl

-- A message of another channel under the identifier of a held one accepts that one in its stead.
other_channel_accepts :
    arrival "m3"
      (state_after (
        record_inbound
          (record third { channel_id = "d"; previous_chain_id = none })
          "t5"
          waiting_third)).inbox
    ≡ some 1
unfolding record_inbound arrival used_elsewhere
other_channel_accepts = refl
