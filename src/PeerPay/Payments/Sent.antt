-- ===== src/PeerPay/Payments/Sent.antt =====
-- What a successful `send_payment` of src/peer_pay.rs says of the run.
use rust_messagebox_client.Prelude.{ℕ, String, ◌≡◌, false, none, List}
use rust_messagebox_client.Error.{ok, err, Fallible, json}
use rust_messagebox_client.Types.{PaymentToken}
use rust_messagebox_client.Deps.{Deps}
use rust_messagebox_client.Io.Runs.{
  Event, AllRuns, Extends, AllRuns-Extends, AllRuns-and, AllRuns-then, AllRuns-weaken,
  AllRuns-of_result,
}
use rust_messagebox_client.Session.{Client}
use rust_messagebox_client.HttpOps.Outbox.Stored.{Stored, StoredOk, send_message-Stored}
use rust_messagebox_client.PeerPay.Payments.{send_payment}
use rust_messagebox_client.PeerPay.Payments.Pays.{Pays, PaysOk, create_payment_token-Pays}

module _ (D : Deps) (client : Client) where
  -- A token of the amount is in the recipient's payment inbox.
  pub record Paid (recipient : String) (amount : ℕ) (log : List (Event D)) (id : String)
      : Type 0 where
    pub token : PaymentToken
    pub before : List (Event D)
    pub token_json : String
    pub pays : Pays D client recipient amount before token
    pub since : Extends before log
    pub encoded : D.payment_token_json token ≡ ok token_json
    pub stored : Stored D client recipient "payment_inbox" token_json false false none log id

  abbrev pub PaidOk : String → ℕ → List (Event D) → Fallible String → Type 0
  PaidOk recipient amount log (ok id) = Paid recipient amount log id
  PaidOk recipient amount log (err _) = Unit

  Stored-PaidOk :
      (recipient : String) (amount : ℕ) (before log : List (Event D)) (token : PaymentToken)
      (token_json : String) (r : Fallible String)
      → Pays D client recipient amount before token
      → D.payment_token_json token ≡ ok token_json
      → Extends before log
      → StoredOk D client recipient "payment_inbox" token_json false false none log r
      → PaidOk recipient amount log r
  Stored-PaidOk recipient amount before log token token_json (err e) pays encoded ext h = tt
  Stored-PaidOk recipient amount before log token token_json (ok id) pays encoded ext h = record {
    token = token;
    before = before;
    token_json = token_json;
    pays = pays;
    since = ext;
    encoded = encoded;
    stored = h;
  }

  pub send_payment-PaidOk :
      (recipient : String) (amount : ℕ) (log : List (Event D))
      → AllRuns (PaidOk recipient amount) log (send_payment D client recipient amount)
  unfolding send_payment
  send_payment-PaidOk recipient amount log =
      AllRuns-then (PaysOk D client recipient amount) (PaidOk recipient amount) log _ _
        (create_payment_token-Pays D client recipient amount log)
        (λ log1 token pays.
          AllRuns-of_result (PaidOk recipient amount) log1 json (D.payment_token_json token) _
            (λ token_json encoded.
              AllRuns-weaken
                (λ log' r.
                  Extends log1 log'
                  × StoredOk D client recipient "payment_inbox" token_json false false none log' r)
                (PaidOk recipient amount) log1 _
                (AllRuns-and _ _ log1 _ (AllRuns-Extends log1 _) (
                  send_message-Stored D client recipient "payment_inbox" token_json false false none
                    none log1))
                (λ log2 r (ext, h).
                  Stored-PaidOk recipient amount log1 log2 token token_json r pays encoded ext h))
            (λ e. tt))
        (λ log1 e h. tt)
