-- ===== src/PaymentRequests/Verified.antt =====
-- What a run of the proof check shows.
use mathlib.Core.List.{Memᴰ}
use rust_messagebox_client.Prelude.{ℕ, String, ◌≡◌, refl, true, false, Option, List}
use rust_messagebox_client.Error.{Result, ok, err}
use rust_messagebox_client.Types.{PeerMessage, PaymentRequestMessage}
use rust_messagebox_client.Deps.{Deps}
use rust_messagebox_client.Io.{bind, verify_hmac}
use rust_messagebox_client.Io.Runs.{Event, AllRuns}
use rust_messagebox_client.PaymentRequests.{proof_key, proof_data, verify_bytes, verify_proof}

abbrev pub Extends : {D : Deps} → List (Event D) → List (Event D) → Type 0
Extends {D} log log' = (e : Event D) → Memᴰ e log → Memᴰ e log'

module _ (D : Deps) (my_identity_key : String) (originator : Option String) where
  open D use {payment_request_message, hex_decode}

  -- The wallet found the proof valid, for the request's id, this client's key and the sender's key.
  abbrev pub Verified : List (Event D) → PeerMessage → PaymentRequestMessage → Type 0
  Verified log msg body =
      (proof : List ℕ) × (hex_decode body.request_proof ≡ ok proof)
      × Memᴰ
          (
            verify_hmac (proof_key D msg body) (proof_data D my_identity_key originator body) proof
                originator,
            ok true,
          )
          log

  verify_bytes-Verified :
      (msg : PeerMessage) (body : PaymentRequestMessage) (decoded : Result (List ℕ) String)
      (log : List (Event D))
      → hex_decode body.request_proof ≡ decoded
      → AllRuns
          (λ log' valid. Extends log log' × (valid ≡ true → Verified log' msg body))
          log
          (verify_bytes D my_identity_key originator decoded msg body)
  unfolding bind
  verify_bytes-Verified msg body (err e) log h = ((λ e m. m), (λ t. cc))
  verify_bytes-Verified msg body (ok proof) log h = elim [
    | ok true ↦ ((λ e m. Memᴰ.tail m), (λ t. (proof, h, Memᴰ.head refl)))
    | ok false ↦ ((λ e m. Memᴰ.tail m), (λ t. cc))
    | err s ↦ ((λ e m. Memᴰ.tail m), (λ t. cc))
  ]

  pub verify_proof-Verified :
      (msg : PeerMessage) (body : PaymentRequestMessage) (log : List (Event D))
      → AllRuns
          (λ log' valid. Extends log log' × (valid ≡ true → Verified log' msg body))
          log
          (verify_proof D my_identity_key originator msg body)
  unfolding verify_proof
  verify_proof-Verified msg body log =
      verify_bytes-Verified msg body (hex_decode body.request_proof) log refl
