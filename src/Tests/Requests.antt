-- ===== src/Tests/Requests.antt =====
-- Payment requests at concrete data.
use rust_messagebox_client.Prelude.{
  count, arith, String, ◌≡◌, refl, ◌+◌, Bool, true, false, none, some, List, [], ◌∷◌, string_dec,
  ◌=?◌,
}
use rust_messagebox_client.Prelude.Dict
use rust_messagebox_client.Error.{ok}
use rust_messagebox_client.Types.{PeerMessage, PaymentRequestMessage, default_limits}
use rust_messagebox_client.Io.{Call, Reply, verify_hmac, now, bind}
use rust_messagebox_client.Io.Runs.{Event, AllRuns, run}
use rust_messagebox_client.PaymentRequests.{
  ack_ids, nothing_sorted, note_cancellation, cancelled_by, is_valid_payment_request,
  note_malformed, file, screen, screen_complete, parse_requests, verify_proof,
  collect_cancellations, filter_active, sort_parsed, sort_requests,
}
use rust_messagebox_client.Session.{Client}
use rust_messagebox_client.PaymentRequests.Listed.{listed, sort_requests-request_of}
use rust_messagebox_client.PaymentRequests.Fate.{sort_requests-count}
use rust_messagebox_client.PaymentRequests.Tally.{result_ids, inbox_ids}
use rust_messagebox_client.PaymentRequests.Genuine.{Genuine}
use rust_messagebox_client.PaymentRequests.Masked.{masked_cancellation}
use rust_messagebox_client.Tests.Toy.{toy, usual, alice, ask}

abbrev from_sender : String → String → PeerMessage
from_sender id sender = record {
  message_id = id;
  sender = sender;
  recipient = "02bb";
  message_box = "payment_requests";
  body = "ask";
}

abbrev inbox : List PeerMessage
inbox = from_sender "1" alice ∷ from_sender "2" alice ∷ []

-- A wallet that finds every proof valid or every proof invalid, and a clock that stands.
abbrev proofs_are : Bool → List (Event toy) → (c : Call toy) → Reply toy c
proofs_are b log (verify_hmac _ _ _ _) = ok b
proofs_are b log now = 50
proofs_are b log c = usual c

sorted : Bool → List String × List String
unfolding run sort_requests sort_parsed parse_requests is_valid_payment_request
    collect_cancellations filter_active screen screen_complete verify_proof file note_malformed bind
    Dict.lookup string_dec
sorted b =
    let s = (run (proofs_are b) [] (sort_requests toy "02bb" none default_limits inbox)).0 in
    (result_ids s, ack_ids s)

valid_requests : sorted true ≡ ("1" ∷ "2" ∷ [], [])
unfolding sorted
valid_requests = refl

forged_requests : sorted false ≡ ([], "1" ∷ "2" ∷ [])
unfolding sorted
forged_requests = refl

sort_requests-count_example :
    AllRuns
      (λ _ s. count "1" (result_ids s) + count "1" (ack_ids s) ≡ count "1" (inbox_ids inbox))
      []
      (sort_requests toy "02bb" none default_limits inbox)
sort_requests-count_example = sort_requests-count toy "02bb" none default_limits inbox [] "1"

abbrev cancelling : PaymentRequestMessage
cancelling = record ask { cancelled = some true }

others_differ : ("02mallory" =? alice) ≡ false
unfolding string_dec
others_differ = refl

masked_cancellation_example :
    (cancelled_by
        (note_cancellation true
          (from_sender "2" alice)
          cancelling
          nothing_sorted).cancelled_requests
        ask
        (from_sender "1" alice)
      ≡ true)
    × (cancelled_by
          (note_cancellation true (from_sender "3" "02mallory") cancelling (
            note_cancellation true
              (from_sender "2" alice)
              cancelling
              nothing_sorted)).cancelled_requests
          ask
          (from_sender "1" alice)
        ≡ false)
masked_cancellation_example =
    masked_cancellation nothing_sorted (from_sender "1" alice) (from_sender "2" alice)
      (from_sender "3" "02mallory") ask cancelling cancelling refl refl refl others_differ

-- A clock that stands, and a wallet that finds every proof valid.
abbrev checked : (c : Call toy) → Reply toy c
checked now = 50
checked c = usual c

sort_requests-request_of_example :
    (run
      (λ log c. checked c)
      []
      (sort_requests toy "02bb" none default_limits (from_sender "1" alice ∷ []))).0
    ≡ listed toy "02bb" none default_limits (from_sender "1" alice) "r1" alice "00" "lunch" 5000 100
sort_requests-request_of_example =
    sort_requests-request_of toy "02bb" none default_limits (from_sender "1" alice) "r1" alice "00"
      "lunch" 5000 100 [] checked refl refl refl (omega arith) (omega arith) (omega arith)
      (omega arith) (omega arith) (omega arith)

abbrev client : Client
client = record { host = "h"; originator = none }
