-- ===== src/PaymentRequests/Fate.antt =====
-- Where each message of the inbox ends: in the result or among the acknowledged ids, once.
use rust_messagebox_client.Prelude.{
  count, ℕ, ◌+◌, String, ◌≡◌, Bool, true, false, Option, List, [], ◌∷◌, arith, if◌then◌else◌,
}
use rust_messagebox_client.Prelude.Dict.{Dict}
use rust_messagebox_client.Types.{PeerMessage, PaymentRequestMessage, PaymentRequestLimits}
use rust_messagebox_client.Deps.{Deps}
use rust_messagebox_client.Io.{bind, now}
use rust_messagebox_client.Io.Runs.{Event, AllRuns, AllRuns-bind, AllRuns-weaken, AllRuns-always}
use rust_messagebox_client.PaymentRequests.{
  Parsed, Sorting, nothing_sorted, ack_ids, is_cancellation, active, malformed, note_malformed,
  file, Screening, settled, to_verify, screen, screen_complete, parse_requests, verify_proof,
  collect, collect_cancellations, finish, filter_active, sort_parsed, sort_requests,
}
use rust_messagebox_client.PaymentRequests.Tally.{
  result_ids, inbox_ids, parts, one, Files, cancellations, requests, tally-parts,
  note_malformed-parts, note_cancellation-parts, file-parts,
}

module _ (D : Deps) where
  parse_requests-parts :
      (a : String) (messages : List PeerMessage) (s : Sorting)
      → parts a (parse_requests D messages s).1
          + (cancellations a (parse_requests D messages s).0
              + requests a (parse_requests D messages s).0)
        ≡ parts a s + count a (inbox_ids messages)
  unfolding parse_requests
  parse_requests-parts a [] s = omega arith
  parse_requests-parts a (msg ∷ messages) s = ground (
    arith,
    parse_requests-parts a messages s,
    parse_requests-parts a messages (note_malformed msg s),
    note_malformed-parts a msg s,
  )

  module _ (my_identity_key : String) (originator : Option String) where
    collect-parts :
        (a : String) (c : Bool) (msg : PeerMessage) (body : PaymentRequestMessage) (s : Sorting)
        (log : List (Event D))
        → AllRuns
            (λ _ t. parts a t ≡ parts a s + (if c then one a msg else 0))
            log
            (collect D my_identity_key originator c msg body s)
    collect-parts a false msg body s log = omega arith
    collect-parts a true msg body s log =
        AllRuns-bind (λ _ _. Unit {0}) (λ _ t. parts a t ≡ parts a s + one a msg) log
          (verify_proof D my_identity_key originator msg body) _
          (AllRuns-always (λ _ _. Unit {0}) log _ (λ log' v. tt))
          (λ log' v u. note_cancellation-parts a v msg body s)

    collect_cancellations-parts :
        (a : String) (parsed : List Parsed) (s : Sorting) (log : List (Event D))
        → AllRuns
            (λ _ t. parts a t ≡ parts a s + cancellations a parsed)
            log
            (collect_cancellations D my_identity_key originator parsed s)
    unfolding collect_cancellations
    collect_cancellations-parts a [] s log = omega arith
    collect_cancellations-parts a ((msg, body) ∷ rest) s log =
        AllRuns-bind _ _ log
          (collect D my_identity_key originator (is_cancellation body) msg body s) _
          (collect-parts a (is_cancellation body) msg body s log)
          λ log' s' h.
            AllRuns-weaken (λ _ t. parts a t ≡ parts a s' + cancellations a rest)
              (λ _ t. parts a t ≡ parts a s + cancellations a ((msg, body) ∷ rest)) log' _
              (collect_cancellations-parts a rest s' log') (λ log'' t g. ground arith)

    module _ (limits : PaymentRequestLimits) (now_ms : ℕ) where
      abbrev Screened : PeerMessage → PaymentRequestMessage → Screening → Type 0
      Screened msg body (settled v) = Files msg body v
      Screened msg body (to_verify r) = Files msg body (active r)

      screen-Screened :
          (cancelled : Dict String) (msg : PeerMessage) (body : PaymentRequestMessage)
          → Screened msg body (screen limits cancelled now_ms msg body)
      unfolding screen screen_complete
      screen-Screened cancelled msg body = ground arith

      finish-Files :
          (scr : Screening) (msg : PeerMessage) (body : PaymentRequestMessage)
          (log : List (Event D))
          → Screened msg body scr
          → AllRuns
              (λ _ v. Files msg body v)
              log
              (finish D my_identity_key originator limits now_ms scr msg body)
      finish-Files (settled v) msg body log h = h
      finish-Files (to_verify r) msg body log h =
          AllRuns-bind (λ _ _. Unit {0}) (λ _ v. Files msg body v) log
            (verify_proof D my_identity_key originator msg body) _
            (AllRuns-always (λ _ _. Unit {0}) log _ (λ log' v. tt))
            (λ log' valid u.
              elim valid as (λ b. Files msg body (if b then active r else malformed)) [
                | true ↦ h
                | false ↦ h.0
              ])

      filter_active-parts :
          (a : String) (parsed : List Parsed) (s : Sorting) (log : List (Event D))
          → AllRuns
              (λ _ t. parts a t ≡ parts a s + requests a parsed)
              log
              (filter_active D my_identity_key originator limits now_ms parsed s)
      unfolding filter_active
      filter_active-parts a [] s log = omega arith
      filter_active-parts a ((msg, body) ∷ rest) s log =
          AllRuns-bind (λ _ v. Files msg body v)
            (λ _ t. parts a t ≡ parts a s + requests a ((msg, body) ∷ rest)) log
            (finish D my_identity_key originator limits now_ms
              (screen limits s.cancelled_requests now_ms msg body) msg body)
            _ (finish-Files _ msg body log (screen-Screened s.cancelled_requests msg body))
            λ log' v h.
              AllRuns-weaken (λ _ t. parts a t ≡ parts a (file msg v s) + requests a rest)
                (λ _ t. parts a t ≡ parts a s + requests a ((msg, body) ∷ rest)) log' _
                (filter_active-parts a rest (file msg v s) log')
                (λ log'' t g. let e = file-parts a msg body v s h in omega (arith, g, e))

    sort_parsed-parts :
        (a : String) (limits : PaymentRequestLimits) (parsed : List Parsed) (s : Sorting)
        (log : List (Event D))
        → AllRuns
            (λ _ t. parts a t ≡ parts a s + (cancellations a parsed + requests a parsed))
            log
            (sort_parsed D my_identity_key originator limits parsed s)
    unfolding sort_parsed bind
    sort_parsed-parts a limits parsed s log =
        AllRuns-bind (λ _ t. parts a t ≡ parts a s + cancellations a parsed)
          (λ _ t. parts a t ≡ parts a s + (cancellations a parsed + requests a parsed)) log
          (collect_cancellations D my_identity_key originator parsed s) _
          (collect_cancellations-parts a parsed s log)
          λ log' s' h. λ now_ms.
            AllRuns-weaken (λ _ t. parts a t ≡ parts a s' + requests a parsed)
              (λ _ t. parts a t ≡ parts a s + (cancellations a parsed + requests a parsed))
              ((now, now_ms) ∷ log') _
              (filter_active-parts limits now_ms a parsed s' ((now, now_ms) ∷ log'))
              (λ log'' t g. omega (arith, g, h))

    -- In every run, every message id occurs among the returned requests and the ids to acknowledge
    -- together exactly as often as in the inbox. So with ids that differ no message is lost, none is
    -- acknowledged twice, and none that is returned is acknowledged.
    pub sort_requests-count :
        (limits : PaymentRequestLimits) (messages : List PeerMessage) (log : List (Event D))
        (a : String)
        → AllRuns
            (λ _ s. count a (result_ids s) + count a (ack_ids s) ≡ count a (inbox_ids messages))
            log
            (sort_requests D my_identity_key originator limits messages)
    unfolding sort_requests
    sort_requests-count limits messages log a =
        let (parsed, s) = parse_requests D messages nothing_sorted in
        AllRuns-weaken (λ _ t. parts a t ≡ parts a s + (cancellations a parsed + requests a parsed))
          _ log _ (sort_parsed-parts a limits parsed s log)
          (λ log' t h.
            let e = tally-parts a t in
            let p = parse_requests-parts a messages nothing_sorted in omega (arith, h, e, p))
