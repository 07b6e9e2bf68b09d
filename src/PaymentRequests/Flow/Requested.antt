-- ===== src/PaymentRequests/Flow/Requested.antt =====
-- What a successful `request_payment` of src/payment_requests.rs says of the run.
use mathlib.Core.List.{Memᴰ}
use rust_messagebox_client.Prelude.{ℕ, ◌<◌, String, ◌<>◌, ◌≡◌, false, none, List}
use rust_messagebox_client.Error.{ok, err, Fallible}
use rust_messagebox_client.Types.Requests.{PaymentRequestResult}
use rust_messagebox_client.Deps.{Deps}
use rust_messagebox_client.Io.{Io, create_nonce, create_hmac}
use rust_messagebox_client.Io.Runs.{Event, Extends}
use rust_messagebox_client.Session.{Client}
use rust_messagebox_client.Session.Own.{IsOwnKey}
use rust_messagebox_client.HttpOps.Outbox.Stored.{Stored}
use rust_messagebox_client.PaymentRequests.Flow.{requests_box, request_of, request_key}

module _ (D : Deps) (client : Client) (recipient : String) (amount : ℕ) (description : String)
    (expires_at : ℕ) where
  open D use {PublicKey, public_key_from_string, payment_request_json, hex_encode, as_bytes}

  -- The relay holds a request under a nonce, with the wallet's proof of it for the recipient.
  pub record Requested (log : List (Event D)) (result : PaymentRequestResult) : Type 0 where
    pub identity_key : String
    pub recipient_pk : PublicKey
    pub hmac : List ℕ
    pub body : String
    pub message_id : String
    pub positive : 0 < amount
    pub nonce : Memᴰ (create_nonce, ok result.request_id) log
    pub own : IsOwnKey D client log identity_key
    pub known : public_key_from_string recipient ≡ ok recipient_pk
    pub proven :
        Memᴰ
          (
            create_hmac
                (request_key D result.request_id recipient_pk)
                (as_bytes (result.request_id <> recipient))
                client.originator,
            ok hmac,
          )
          log
    pub proof : result.request_proof ≡ hex_encode hmac
    pub encoded :
        payment_request_json (
          request_of result.request_id identity_key result.request_proof amount description
            expires_at)
        ≡ ok body
    pub stored : Stored D client recipient requests_box body false false none log message_id

  abbrev pub RequestedOk : List (Event D) → Fallible PaymentRequestResult → Type 0
  RequestedOk log (ok result) = Requested log result
  RequestedOk log (err _) = Unit

  module _ (body : String) where
    abbrev Judged : List (Event D) → List (Event D) → Fallible (Unit {0}) → Type 0
    Judged log log' (ok u) =
        Extends log log'
        × ((id : String) × Stored D client recipient requests_box body false false none log' id)
    Judged log log' (err e) = Unit
