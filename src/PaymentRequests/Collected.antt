-- ===== src/PaymentRequests/Collected.antt =====
-- The pass over the cancellations returns no request.
use rust_messagebox_client.Prelude.{String, ◌≡◌, Bool, true, false, Option, List, [], ◌∷◌, arith}
use rust_messagebox_client.Types.{PeerMessage, PaymentRequestMessage}
use rust_messagebox_client.Deps.{Deps}
use rust_messagebox_client.Io.Runs.{Event, AllRuns, AllRuns-bind, AllRuns-always}
use rust_messagebox_client.PaymentRequests.{
  Parsed, Sorting, is_cancellation, note_malformed, note_cancellation, verify_proof, collect,
  collect_cancellations,
}

module _ (D : Deps) (my_identity_key : String) (originator : Option String) where
  collect-result :
      (c : Bool) (msg : PeerMessage) (body : PaymentRequestMessage) (s : Sorting)
      (log : List (Event D))
      → s.result ≡ []
      → AllRuns (λ _ t. t.result ≡ []) log (collect D my_identity_key originator c msg body s)
  unfolding note_cancellation note_malformed
  collect-result false msg body s log h = h
  collect-result true msg body s log h =
      AllRuns-bind (λ _ _. Unit {0}) (λ _ t. t.result ≡ []) log
        (verify_proof D my_identity_key originator msg body) _
        (AllRuns-always (λ _ _. Unit {0}) log _ (λ log' v. tt)) (λ log' v u. ground arith)

  pub collect_cancellations-result :
      (parsed : List Parsed) (s : Sorting) (log : List (Event D))
      → s.result ≡ []
      → AllRuns
          (λ _ t. t.result ≡ [])
          log
          (collect_cancellations D my_identity_key originator parsed s)
  unfolding collect_cancellations
  collect_cancellations-result [] s log h = h
  collect_cancellations-result ((msg, body) ∷ rest) s log h =
      AllRuns-bind (λ _ t. t.result ≡ []) (λ _ t. t.result ≡ []) log
        (collect D my_identity_key originator (is_cancellation body) msg body s) _
        (collect-result (is_cancellation body) msg body s log h)
        (λ log' t e. collect_cancellations-result rest t log' e)
