-- ===== src/PaymentRequests.antt =====
-- `list_incoming_payment_requests` of src/payment_requests.rs, stage by stage, on the messages of
-- the inbox. Its variables are the fields of `Sorting`.
pub mod Collected
pub mod Flow
pub mod Fate
pub mod Genuine
pub mod Listed
pub mod Masked
pub mod Parse
pub mod Tally
pub mod Verified
use rust_messagebox_client.Prelude.{
  ℕ, String, ◌<>◌, len, Bool, true, false, not, ◌&&◌, ◌||◌, Option, none, some, List, [], ◌∷◌, ◌++◌,
  is_empty, ltb, ◌==◌, ◌=?◌, is_some, if◌then◌else◌,
}
use rust_messagebox_client.Prelude.Dict
use rust_messagebox_client.Prelude.Dict.{Dict}
use rust_messagebox_client.Error.{Result, ok, err, Fallible, to_option}
use rust_messagebox_client.Types.{
  PeerMessage, PaymentRequestMessage, IncomingPaymentRequest, PaymentRequestLimits,
}
use rust_messagebox_client.Deps.{Deps}
use rust_messagebox_client.Io.{KeyArgs, other, verify_hmac, now, Prog, Io, ret, bind, perform}

-- `body.cancelled == Some(true)`
abbrev pub is_cancellation : PaymentRequestMessage → Bool
is_cancellation body = elim body.cancelled [ none ↦ false | some b ↦ b ]

unfoldable pub is_valid_payment_request : PaymentRequestMessage → Bool
is_valid_payment_request msg =
    if len msg.request_id == 0 || len msg.sender_identity_key == 0 || len msg.request_proof == 0
    then false
    else if is_cancellation msg
    then true
    else is_some msg.amount && is_some msg.description && is_some msg.expires_at

abbrev pub Parsed : Type 0
Parsed = PeerMessage × PaymentRequestMessage

-- `cancelled_requests` maps a request id to a sender.
pub record Sorting : Type 0 where
  pub malformed_ids : List String
  pub cancelled_requests : Dict String
  pub cancellation_ids : List String
  pub expired_ids : List String
  pub cancelled_original_ids : List String
  pub out_of_range_ids : List String
  pub result : List IncomingPaymentRequest

abbrev pub nothing_sorted : Sorting
nothing_sorted = record {
  malformed_ids = [];
  cancelled_requests = [];
  cancellation_ids = [];
  expired_ids = [];
  cancelled_original_ids = [];
  out_of_range_ids = [];
  result = [];
}

-- `ack_ids` of stage 4.
abbrev pub ack_ids : Sorting → List String
ack_ids s =
    s.expired_ids ++ s.cancelled_original_ids ++ s.cancellation_ids ++ s.out_of_range_ids
    ++ s.malformed_ids

-- Where a message of stage 3 goes.
pub data Verdict : Type 0 where
  cancellation malformed expired cancelled_original out_of_range : Verdict
  active : IncomingPaymentRequest → Verdict

-- The pushes and the `insert` of the stages.
unfoldable pub note_malformed : PeerMessage → Sorting → Sorting
note_malformed msg s = record s { malformed_ids = s.malformed_ids ++ msg.message_id ∷ [] }

unfoldable pub note_cancellation : Bool → PeerMessage → PaymentRequestMessage → Sorting → Sorting
note_cancellation false msg body s = note_malformed msg s
note_cancellation true msg body s = record s {
  cancelled_requests = Dict.insert body.request_id msg.sender s.cancelled_requests;
  cancellation_ids = s.cancellation_ids ++ msg.message_id ∷ [];
}

unfoldable pub file : PeerMessage → Verdict → Sorting → Sorting
file msg cancellation s = s
file msg malformed s = note_malformed msg s
file msg expired s = record s { expired_ids = s.expired_ids ++ msg.message_id ∷ [] }
file msg cancelled_original s = record s {
  cancelled_original_ids = s.cancelled_original_ids ++ msg.message_id ∷ [];
}
file msg out_of_range s = record s { out_of_range_ids = s.out_of_range_ids ++ msg.message_id ∷ [] }
file msg (active request) s = record s { result = s.result ++ request ∷ [] }

-- Stage 3 up to the proof: a verdict, or the request that a valid proof makes active.
pub data Screening : Type 0 where
  settled : Verdict → Screening
  to_verify : IncomingPaymentRequest → Screening

abbrev pub cancelled_by : Dict String → PaymentRequestMessage → PeerMessage → Bool
cancelled_by cancelled body msg = elim (Dict.lookup body.request_id cancelled) [
  | none ↦ false
  | some cancel_sender ↦ cancel_sender =? msg.sender
]

unfoldable pub screen_complete :
    PaymentRequestLimits
    → Dict String
    → ℕ
    → PeerMessage
    → PaymentRequestMessage
    → ℕ
    → String
    → ℕ
    → Screening
screen_complete limits cancelled now_ms msg body amount description expires_at =
    if ltb expires_at now_ms
    then settled expired
    else if cancelled_by cancelled body msg
    then settled cancelled_original
    else if ltb amount limits.min_amount || ltb limits.max_amount amount
    then settled out_of_range
    else to_verify (record {
      message_id = msg.message_id;
      sender = msg.sender;
      request_id = body.request_id;
      amount = amount;
      description = description;
      expires_at = expires_at;
    })

unfoldable pub screen :
    PaymentRequestLimits → Dict String → ℕ → PeerMessage → PaymentRequestMessage → Screening
screen limits cancelled now_ms msg body =
    if is_cancellation body then settled cancellation else elim body.amount [
      | none ↦ settled malformed
      | some amount ↦ elim body.description [
        | none ↦ settled malformed
        | some description ↦ elim body.expires_at [
          | none ↦ settled malformed
          | some expires_at ↦
              screen_complete limits cancelled now_ms msg body amount description expires_at
        ]
      ]
    ]

module _ (D : Deps) where
  open D use {public_key_from_string, payment_request_message, as_bytes, hex_decode}

  -- Stage 1.
  unfoldable pub parse_requests : List PeerMessage → Sorting → List Parsed × Sorting
  parse_requests [] s = ([], s)
  parse_requests (msg ∷ messages) s = elim (payment_request_message msg.body) [
    | err _ ↦ parse_requests messages (note_malformed msg s)
    | ok body ↦ elim (is_valid_payment_request body) [
      | false ↦ parse_requests messages (note_malformed msg s)
      | true ↦ let (parsed, s') = parse_requests messages s in ((msg, body) ∷ parsed, s')
    ]
  ]

  -- `payment_request_auth_protocol()` with the request's id as the key's.
  abbrev pub proof_key : PeerMessage → PaymentRequestMessage → KeyArgs D
  proof_key msg body = record {
    security_level = 2;
    protocol = "payment request auth";
    key_id = body.request_id;
    counterparty = other (to_option (public_key_from_string msg.sender));
  }

  module _ (my_identity_key : String) (originator : Option String) where
    abbrev pub proof_data : PaymentRequestMessage → List ℕ
    proof_data body = as_bytes (body.request_id <> my_identity_key)

    abbrev is_ok_true : Result Bool String → Bool
    is_ok_true (ok valid) = valid
    is_ok_true (err _) = false

    abbrev pub verify_bytes :
        Result (List ℕ) String → PeerMessage → PaymentRequestMessage → Prog D Bool
    verify_bytes (err _) msg body = ret false
    verify_bytes (ok proof_bytes) msg body =
        bind (perform (verify_hmac (proof_key msg body) (proof_data body) proof_bytes originator))
          λ r. ret (is_ok_true r)

    -- Whether the proof decodes and the wallet finds it valid, as stages 2 and 3 ask it.
    unfoldable pub verify_proof : PeerMessage → PaymentRequestMessage → Prog D Bool
    verify_proof msg body = verify_bytes (hex_decode body.request_proof) msg body

    -- Stage 2 on one message.
    abbrev pub collect : Bool → PeerMessage → PaymentRequestMessage → Sorting → Prog D Sorting
    collect false msg body s = ret s
    collect true msg body s =
        bind (verify_proof msg body) (λ valid. ret (note_cancellation valid msg body s))

    -- Stage 2.
    unfoldable pub collect_cancellations : List Parsed → Sorting → Prog D Sorting
    collect_cancellations [] s = ret s
    collect_cancellations ((msg, body) ∷ rest) s =
        bind (collect (is_cancellation body) msg body s) (λ s'. collect_cancellations rest s')

    -- Stage 3.
    module _ (limits : PaymentRequestLimits) (now_ms : ℕ) where
      abbrev pub finish : Screening → PeerMessage → PaymentRequestMessage → Prog D Verdict
      finish (settled v) msg body = ret v
      finish (to_verify request) msg body =
          bind (verify_proof msg body) λ valid. ret (if valid then active request else malformed)

      unfoldable pub filter_active : List Parsed → Sorting → Prog D Sorting
      filter_active [] s = ret s
      filter_active ((msg, body) ∷ rest) s =
          bind (finish (screen limits s.cancelled_requests now_ms msg body) msg body)
            λ v. filter_active rest (file msg v s)

    unfoldable pub sort_parsed : PaymentRequestLimits → List Parsed → Sorting → Prog D Sorting
    sort_parsed limits parsed s =
        bind (collect_cancellations parsed s)
          λ collected. bind (perform now) λ now_ms. filter_active limits now_ms parsed collected

    -- Stages 1 to 3 on the messages of the inbox.
    unfoldable pub sort_requests : PaymentRequestLimits → List PeerMessage → Prog D Sorting
    sort_requests limits messages =
        let (parsed, s) = parse_requests messages nothing_sorted in sort_parsed limits parsed s

    -- With stage 4; the result of the acknowledgement is ignored.
    unfoldable pub list_incoming_payment_requests :
        PaymentRequestLimits
        → List PeerMessage
        → (List String → Io D (Unit {0}))
        → Io D (List IncomingPaymentRequest)
    list_incoming_payment_requests limits messages acknowledge_message =
        bind (sort_requests limits messages) λ s.
          if is_empty (ack_ids s)
          then ret (ok s.result)
          else bind (acknowledge_message (ack_ids s)) (λ _. ret (ok s.result))
