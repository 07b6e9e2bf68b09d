-- ===== src/HttpOps/Outbox/Accounts.antt =====
-- Where each recipient of a send to several ends.
use rust_messagebox_client.Prelude.{◌+◌, String, ◌≡◌, not, ◌&&◌, List, select, count, All}
use rust_messagebox_client.Prelude.Dict.{Dict}
use rust_messagebox_client.Error.{ok, err, Fallible}
use rust_messagebox_client.Types.SendList.{SendListParams, SendListResult, MessageBoxMultiQuote}
use rust_messagebox_client.Deps.{Deps}
use rust_messagebox_client.Io.Runs.{Event}
use rust_messagebox_client.Session.{Client}
use rust_messagebox_client.Permissions.Multi.Sums.{is_payable, recipients_of, Totals}
use rust_messagebox_client.HttpOps.Outbox.{is_sendable}
use rust_messagebox_client.HttpOps.Outbox.Taken.{sent_to, failed_for, Taken}

module _ (D : Deps) (client : Client) (params : SendListParams) where
  -- What is known of the result for some quotes.
  pub record Accounts (log : List (Event D)) (m : MessageBoxMultiQuote) (r : SendListResult)
      : Type 0 where
    pub blocked : r.blocked ≡ m.blocked_recipients
    pub attempted :
        (a : String)
        → count a (sent_to r.sent) + count a (failed_for r.failed)
          ≡ count a (recipients_of (select is_sendable m.quotes_by_recipient))
    pub taken : All (Taken D client params log) r.sent

  abbrev pub AccountsOk : MessageBoxMultiQuote → List (Event D) → Fallible SendListResult → Type 0
  AccountsOk m log (ok r) = Accounts log m r
  AccountsOk m log (err _) = ⊥

  -- The whole: with the quotes that the run got.
  abbrev pub Accounted : List (Event D) → Fallible SendListResult → Type 0
  Accounted log (ok r) =
      (m : MessageBoxMultiQuote) × Totals params.recipients m
      × Accounts log m r
      × ((a : String)
          → count a r.blocked + (count a (sent_to r.sent) + count a (failed_for r.failed))
            ≡ count a params.recipients
              + count a (
                  recipients_of
                    (select (λ rq. not (is_payable rq) && is_sendable rq) m.quotes_by_recipient)))
  Accounted log (err _) = Unit
