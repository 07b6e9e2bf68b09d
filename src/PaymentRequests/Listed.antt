-- ===== src/PaymentRequests/Listed.antt =====
-- A request that `request_payment` of src/payment_requests.rs makes, on the recipient's list.
use rust_messagebox_client.Prelude.{
  ℕ, ◌≤◌, ◌<◌, String, len, ◌≡◌, refl, true, false, Option, List, [], ◌∷◌, arith,
}
use rust_messagebox_client.Prelude.Dict
use rust_messagebox_client.Error.{ok, err}
use rust_messagebox_client.Types.{
  PeerMessage, PaymentRequestMessage, PaymentRequestLimits, IncomingPaymentRequest,
}
use rust_messagebox_client.Deps.{Deps}
use rust_messagebox_client.Io.{Call, Reply, verify_hmac, now, bind}
use rust_messagebox_client.Io.Runs.{Event, run, RunsWith, RunsWith-run}
use rust_messagebox_client.PaymentRequests.{
  Sorting, nothing_sorted, is_valid_payment_request, parse_requests, screen, screen_complete,
  to_verify, verify_proof, proof_key, proof_data, sort_requests, sort_parsed, collect_cancellations,
  filter_active, file,
}
use rust_messagebox_client.PaymentRequests.Parse.{parse_requests_kept}
use rust_messagebox_client.PaymentRequests.Flow.{request_of}

module _ (D : Deps) (my_identity_key : String) (originator : Option String)
    (limits : PaymentRequestLimits) (msg : PeerMessage)
    (request_id sender_identity_key request_proof description : String)
    (amount expires_at : ℕ) where
  abbrev request : PaymentRequestMessage
  request = request_of request_id sender_identity_key request_proof amount description expires_at

  abbrev incoming : IncomingPaymentRequest
  incoming = record {
    message_id = msg.message_id;
    sender = msg.sender;
    request_id = request_id;
    amount = amount;
    description = description;
    expires_at = expires_at;
  }

  -- The request is all that the sorting finds.
  abbrev pub listed : Sorting
  listed = record nothing_sorted { result = incoming ∷ [] }

  valid_request :
      0 < len request_id
      → 0 < len sender_identity_key
      → 0 < len request_proof
      → is_valid_payment_request request ≡ true
  unfolding is_valid_payment_request
  valid_request id key proof = ground arith

  screened :
      (now_ms : ℕ)
      → now_ms ≤ expires_at
      → limits.min_amount ≤ amount
      → amount ≤ limits.max_amount
      → screen limits [] now_ms msg request ≡ to_verify incoming
  unfolding screen screen_complete Dict.lookup
  screened now_ms time least most = ground arith

  module _ (bytes : List ℕ) (replies : (c : Call D) → Reply D c)
      (decoded : D.hex_decode request_proof ≡ ok bytes)
      (valid : replies (
          verify_hmac
            (proof_key D msg request)
            (proof_data D my_identity_key originator request)
            bytes
            originator)
        ≡ ok true) where
    abbrev Listed : List (Event D) → Sorting → Type 0
    Listed log s = s ≡ listed

    finished-Listed :
        (now_ms : ℕ) (log : List (Event D))
        → screen limits [] now_ms msg request ≡ to_verify incoming
        → RunsWith
            (λ log c. replies c)
            Listed
            log
            (filter_active D my_identity_key originator limits now_ms
              ((msg, request) ∷ [])
              nothing_sorted)
    unfolding filter_active bind verify_proof file
    finished-Listed now_ms log s =
        rw (s, decoded) (elim [ ok true ↦ λ e. refl | ok false ↦ λ e. cc | err x ↦ λ e. cc ])

    -- A request with a proof that the recipient's wallet finds valid, alone in the inbox, before its
    -- end and within the limits, is listed as it was made, and nothing is left to acknowledge.
    pub sort_requests-request_of :
        D.payment_request_message msg.body ≡ ok request
        → 0 < len request_id
        → 0 < len sender_identity_key
        → 0 < len request_proof
        → replies now ≤ expires_at
        → limits.min_amount ≤ amount
        → amount ≤ limits.max_amount
        → (run
            (λ log c. replies c)
            []
            (sort_requests D my_identity_key originator limits (msg ∷ []))).0
          ≡ listed
    unfolding sort_requests sort_parsed collect_cancellations parse_requests bind
    sort_requests-request_of read id key proof time least most =
        RunsWith-run (λ log c. replies c) Listed [] _
          (rw
            (parse_requests_kept D msg [] nothing_sorted request read (valid_request id key proof))
            (λ t e. finished-Listed t _ (screened t (rw (← e) time) least most)))
