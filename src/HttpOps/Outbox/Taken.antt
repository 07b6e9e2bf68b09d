-- ===== src/HttpOps/Outbox/Taken.antt =====
-- Where each send of `send_message_to_recipients` of src/http_ops.rs ends.
use mathlib.Core.List.{Memᴰ}
use rust_messagebox_client.Prelude.{
  ℕ, ◌+◌, String, ◌<>◌, ◌≡◌, refl, false, Option, some, none, List, [], ◌∷◌, map, arith, unwrap_or,
  count, count-append, map-append_one, All, All-map, All-append,
}
use rust_messagebox_client.Prelude.Dict.{Dict}
use rust_messagebox_client.Error.{ok, err, Fallible}
use rust_messagebox_client.Types.{MessagePayment}
use rust_messagebox_client.Types.SendList.{
  SendListParams, SentRecipient, FailedRecipient, RecipientQuote,
}
use rust_messagebox_client.Deps.{Deps}
use rust_messagebox_client.Io.{Response, fetch}
use rust_messagebox_client.Io.Runs.{
  Event, Extends, AllRuns, AllRuns-bind, AllRuns-and, AllRuns-weaken, AllRuns-Extends,
}
use rust_messagebox_client.Client.Http.{json_headers}
use rust_messagebox_client.Session.{Client}
use rust_messagebox_client.Permissions.Multi.Sums.{recipients_of}
use rust_messagebox_client.HttpOps.Send.{send_request}
use rust_messagebox_client.HttpOps.Send.Delivered.{
  Holds, DeliveredOk, send_message_to_host-Delivered,
}
use rust_messagebox_client.HttpOps.Outbox.{
  Sends, note_send, send_to_host, send_all, host_in, pay_fees,
}

abbrev pub sent_to : List SentRecipient → List String
sent_to = map (λ (s : SentRecipient). s.recipient)

abbrev pub failed_for : List FailedRecipient → List String
failed_for = map (λ (f : FailedRecipient). f.recipient)

-- How often a recipient has been sent to, with success or without.
abbrev pub attempts : String → Sends → ℕ
attempts a s = count a (sent_to s.sent) + count a (failed_for s.failed)

note_send-attempts :
    (a recipient : String) (r : Fallible String) (s : Sends)
    → attempts a (note_send recipient r s) ≡ attempts a s + count a (recipient ∷ [])
unfolding note_send
note_send-attempts a recipient (ok id) s =
    rw (map-append_one (λ (t : SentRecipient). t.recipient))
      (let e = count-append a (sent_to s.sent) (recipient ∷ []) in omega (arith, e))
note_send-attempts a recipient (err e) s =
    rw (map-append_one (λ (t : FailedRecipient). t.recipient))
      (let e = count-append a (failed_for s.failed) (recipient ∷ []) in omega (arith, e))

module _ (D : Deps) (client : Client) (params : SendListParams) where
  -- The relay of some host holds a message for the recipient.
  pub record Taken (log : List (Event D)) (s : SentRecipient) : Type 0 where
    pub host : String
    pub wire : String
    pub resolved : String
    pub payment : Option MessagePayment
    pub bytes : List ℕ
    pub response : Response
    pub encoded :
        D.send_message_request (send_request D s.recipient params.message_box wire resolved payment)
        ≡ ok bytes
    pub posted :
        Memᴰ (fetch (host <> "/sendMessage") "POST" (some bytes) json_headers, ok response) log
    pub holds : Holds D client.originator host s.recipient params.message_box params.body response

  Taken-Extends :
      (log log' : List (Event D))
      → Extends log log'
      → (s : SentRecipient) → Taken log s
      → Taken log' s
  Taken-Extends log log' ext s t = record {
    host = t.host;
    wire = t.wire;
    resolved = t.resolved;
    payment = t.payment;
    bytes = t.bytes;
    response = t.response;
    encoded = t.encoded;
    posted = ext _ t.posted;
    holds = t.holds;
  }

  abbrev Sent : List (Event D) → List (Event D) → String → String → Fallible String → Type 0
  Sent before log host recipient r =
      DeliveredOk D client.originator host recipient params.message_box params.body
        (unwrap_or params.skip_encryption false) log r
      × Extends before log

  note_send-Taken :
      (before log : List (Event D)) (host recipient : String) (r : Fallible String) (s : Sends)
      → Sent before log host recipient r
      → All (Taken before) s.sent
      → All (Taken log) (note_send recipient r s).sent
  unfolding note_send
  note_send-Taken before log host recipient (err e) s (d, ext) all =
      All-map (Taken before) (Taken log) s.sent (Taken-Extends before log ext) all
  note_send-Taken before log host recipient (ok id) s (d, ext) all =
      All-append (Taken log) s.sent (record { recipient = recipient; message_id = id })
        (All-map (Taken before) (Taken log) s.sent (Taken-Extends before log ext) all)
        (record {
          host = host;
          wire = d.wire;
          resolved = d.resolved;
          payment = d.payment;
          bytes = d.bytes;
          response = d.response;
          encoded = d.encoded;
          posted = rw d.last (Memᴰ.head refl);
          holds = d.holds;
        })

  abbrev pub SentAll : List RecipientQuote → Sends → List (Event D) → Sends → Type 0
  SentAll rqs s log t =
      ((a : String) → attempts a t ≡ attempts a s + count a (recipients_of rqs))
      × All (Taken log) t.sent

  pub send_all-SentAll :
      (payment : Option MessagePayment) (hosts : Dict String) (rqs : List RecipientQuote)
      (s : Sends) (log : List (Event D))
      → All (Taken log) s.sent
      → AllRuns (SentAll rqs s) log (send_all D client params payment hosts rqs s)
  unfolding send_all send_to_host
  send_all-SentAll payment hosts [] s log all = ((λ a. omega arith), all)
  send_all-SentAll payment hosts (rq ∷ rqs) s log all =
      let host = host_in D client hosts rq.recipient in
      AllRuns-bind (λ log' r. Sent log log' host rq.recipient r) (SentAll (rq ∷ rqs) s) log _ _
        (AllRuns-and _ _ log _
          (send_message_to_host-Delivered D client.originator host rq.recipient params.message_box
            params.body (unwrap_or params.skip_encryption false) false none payment
            (pay_fees D client rq.recipient params.message_box) log)
          (AllRuns-Extends log _))
        λ log' r sent.
          AllRuns-weaken (SentAll rqs (note_send rq.recipient r s)) (SentAll (rq ∷ rqs) s) log' _
            (send_all-SentAll payment hosts rqs (note_send rq.recipient r s) log'
              (note_send-Taken log log' host rq.recipient r s sent all))
            (λ log'' t (counted, taken).
              ((λ a. ground (arith, counted a, note_send-attempts a rq.recipient r s)), taken))
