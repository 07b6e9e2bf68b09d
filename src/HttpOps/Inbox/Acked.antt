-- ===== src/HttpOps/Inbox/Acked.antt =====
-- What a successful `acknowledge_message` of src/http_ops.rs says of the run.
use rust_messagebox_client.Prelude.{String, Option, none, some, List}
use rust_messagebox_client.Error.{ok, err, Fallible}
use rust_messagebox_client.Deps.{Deps}
use rust_messagebox_client.Io.Runs.{Event, AllRuns, AllRuns-always, AllRuns-then, AllRuns-weaken}
use rust_messagebox_client.Session.{Client}
use rust_messagebox_client.HttpOps.Acknowledge.Asked.{
  Acknowledged, Outcome, Reached, on_host-Outcome, acknowledge_on_hosts-Reached,
}
use rust_messagebox_client.HttpOps.Inbox.{acknowledge_message, acknowledge_unless, own_hosts}

module _ (D : Deps) (client : Client) where
  -- Some host acknowledged the ids.
  abbrev pub AckOk : List String → List (Event D) → Fallible (Unit {0}) → Type 0
  AckOk ids log (ok _) = (host : String) × Acknowledged D ids log host
  AckOk ids log (err _) = Unit

  Outcome-AckOk :
      (ids : List String) (host : String) (log : List (Event D)) (r : Fallible (Unit {0}))
      → Outcome D ids host log r
      → AckOk ids log r
  Outcome-AckOk ids host log (ok u) h = (host, h)
  Outcome-AckOk ids host log (err e) h = tt

  Reached-AckOk :
      (ids hosts : List String) (host : String) (log : List (Event D)) (r : Fallible (Unit {0}))
      → Reached D ids host hosts log r
      → AckOk ids log r
  Reached-AckOk ids hosts host log (ok u) (at, among, h) = (at, h)
  Reached-AckOk ids hosts host log (err e) h = tt

  unless-AckOk :
      (ids : List String) (override_host : Option String) (log : List (Event D))
      → AllRuns (AckOk ids) log (acknowledge_unless D client ids override_host)
  unless-AckOk ids (some host) log =
      AllRuns-weaken (Outcome D ids host) (AckOk ids) log _ (on_host-Outcome D ids host log)
        (λ log' r h. Outcome-AckOk ids host log' r h)
  unless-AckOk ids none log =
      AllRuns-then (λ _ _. Unit {0}) (AckOk ids) log (own_hosts D client) _
        (AllRuns-always (λ _ _. Unit {0}) log (own_hosts D client) (λ l h. tt))
        (λ log' hosts u.
          AllRuns-weaken (Reached D ids client.host hosts) (AckOk ids) log' _
            (acknowledge_on_hosts-Reached D ids _ client.host hosts log')
            (λ log'' r h. Reached-AckOk ids hosts client.host log'' r h))
        (λ log' e u. tt)

  pub acknowledge_message-AckOk :
      (ids : List String) (override_host : Option String) (log : List (Event D))
      → AllRuns (AckOk ids) log (acknowledge_message D client ids override_host)
  unfolding acknowledge_message
  acknowledge_message-AckOk ids override_host log =
      AllRuns-then (λ _ _. Unit {0}) (AckOk ids) log _ _
        (AllRuns-always (λ _ _. Unit {0}) log _ (λ l h. tt))
        (λ log' u h. unless-AckOk ids override_host log') (λ log' e h. tt)
