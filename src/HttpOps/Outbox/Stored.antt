-- ===== src/HttpOps/Outbox/Stored.antt =====
-- What a successful `send_message` of src/http_ops.rs says of the run.
use rust_messagebox_client.Prelude.{String, ◌≡◌, refl, Bool, Option, none, some, List}
use rust_messagebox_client.Error.{ok, err, Fallible}
use rust_messagebox_client.Deps.{Deps}
use rust_messagebox_client.Io.Runs.{
  Event, Extends, AllRuns, AllRuns-always, AllRuns-and, AllRuns-Extends, AllRuns-then,
  AllRuns-weaken,
}
use rust_messagebox_client.Session.{Client}
use rust_messagebox_client.HostResolution.Resolved.{
  Resolved, Resolved-Extends, resolve_host_for_recipient-Resolved,
}
use rust_messagebox_client.HttpOps.Send.Delivered.{
  Delivered, DeliveredOk, send_message_to_host-Delivered,
}
use rust_messagebox_client.HttpOps.Outbox.{send_to_host, send_message, pay_fees, host_of}

module _ (D : Deps) (client : Client) (recipient message_box body : String)
    (skip check : Bool) where
  -- The override, or the host that the overlay gave for the recipient.
  abbrev pub Chosen : Option String → List (Event D) → String → Type 0
  Chosen (some h) log host = host ≡ h
  Chosen none log host = Resolved D client recipient log (ok host)

  Chosen-Extends :
      (override_host : Option String) (host : String) (log log' : List (Event D))
      → Extends log log'
      → Chosen override_host log host
      → Chosen override_host log' host
  Chosen-Extends (some h) host log log' ext same = same
  Chosen-Extends none host log log' ext known =
      Resolved-Extends D client recipient host log log' ext known

  -- The relay at that host holds the message.
  pub record Stored (override_host : Option String) (log : List (Event D)) (id : String)
      : Type 0 where
    pub host : String
    pub chosen : Chosen override_host log host
    pub delivered : Delivered D client.originator host recipient message_box body skip log id

  abbrev pub StoredOk : Option String → List (Event D) → Fallible String → Type 0
  StoredOk override_host log (ok id) = Stored override_host log id
  StoredOk override_host log (err _) = Unit

  abbrev HostOk : Option String → List (Event D) → Fallible String → Type 0
  HostOk override_host log (ok host) = Chosen override_host log host
  HostOk override_host log (err _) = Unit

  Stored-to :
      (override_host : Option String) (host : String) (log : List (Event D)) (r : Fallible String)
      → Chosen override_host log host
      → DeliveredOk D client.originator host recipient message_box body skip log r
      → StoredOk override_host log r
  Stored-to override_host host log (ok id) chosen d = record {
    host = host;
    chosen = chosen;
    delivered = d;
  }
  Stored-to override_host host log (err e) chosen d = tt

  pub send_to_host-Stored :
      (override_host : Option String) (host : String) (id : Option String) (log : List (Event D))
      → Chosen override_host log host
      → AllRuns
          (StoredOk override_host)
          log
          (send_to_host D client host recipient message_box body skip check id none)
  unfolding send_to_host
  send_to_host-Stored override_host host id log chosen =
      AllRuns-weaken
        (λ log' r.
          Extends log log'
          × DeliveredOk D client.originator host recipient message_box body skip log' r)
        (StoredOk override_host) log _
        (AllRuns-and _ _ log _ (AllRuns-Extends log _) (
          send_message_to_host-Delivered D client.originator host recipient message_box body skip
            check id none (pay_fees D client recipient message_box) log))
        (λ log' r (ext, d).
          Stored-to override_host host log' r
            (Chosen-Extends override_host host log log' ext chosen) d)

  host_of-HostOk :
      (override_host : Option String) (log : List (Event D))
      → AllRuns (HostOk override_host) log (host_of D client override_host recipient)
  host_of-HostOk (some h) log = refl
  host_of-HostOk none log =
      AllRuns-weaken (Resolved D client recipient) (HostOk none) log _
        (resolve_host_for_recipient-Resolved D client recipient log)
        (λ log'. elim [ ok host ↦ λ h. h | err e ↦ λ h. tt ])

  pub send_message-Stored :
      (id override_host : Option String) (log : List (Event D))
      → AllRuns
          (StoredOk override_host)
          log
          (send_message D client recipient message_box body skip check id override_host)
  unfolding send_message
  send_message-Stored id override_host log =
      AllRuns-then (λ _ _. Unit {0}) (StoredOk override_host) log _ _
        (AllRuns-always (λ _ _. Unit {0}) log _ (λ l h. tt))
        (λ log1 u h.
          AllRuns-then (HostOk override_host) (StoredOk override_host) log1 _ _
            (host_of-HostOk override_host log1)
            (λ log2 host chosen. send_to_host-Stored override_host host id log2 chosen)
            (λ log2 e h'. tt))
        (λ log1 e h. tt)
