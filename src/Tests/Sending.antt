-- ===== src/Tests/Sending.antt =====
-- Sending, acknowledging and the poll at concrete data.
use rust_messagebox_client.Prelude.{
  String, ◌≡◌, refl, false, Option, none, List, [], ◌∷◌, string_dec,
}
use rust_messagebox_client.Error.{Fallible, ok, err, http}
use rust_messagebox_client.Types.{MessagePayment}
use rust_messagebox_client.Io.{Call, Reply, fetch, Io, ret, bind}
use rust_messagebox_client.Io.Runs.{Event, AllRuns, run}
use rust_messagebox_client.Encryption.{encrypt_body, generate_message_id}
use rust_messagebox_client.Client.Http.{
  post_json, post_json_raw, check_status_error, is_duplicate_message_rejection,
}
use rust_messagebox_client.HttpOps.Send.{judge_send, send_message_to_host}
use rust_messagebox_client.HttpOps.Send.Delivered.{DeliveredOk, send_message_to_host-Delivered}
use rust_messagebox_client.HttpOps.Acknowledge.{
  acknowledge_message_on_host, acknowledge_on_all, acknowledge_on_hosts,
}
use rust_messagebox_client.Tests.Toy.{toy, usual, alice}

-- A relay that takes everything on one host, and is down on the others.
abbrev relay_up : String → List (Event toy) → (c : Call toy) → Reply toy c
relay_up url log (fetch to _ _ _) = elim (string_dec to url) [
  | yes _ ↦ ok (record { status = 200; headers = []; body = [] })
  | no _ ↦ err "refused"
]
relay_up url log c = usual c

abbrev no_fees : Io toy (Option MessagePayment)
no_fees = ret (ok none)

sent_to : String → Fallible String
unfolding run send_message_to_host judge_send encrypt_body generate_message_id post_json_raw
    check_status_error is_duplicate_message_rejection bind string_dec
sent_to url =
    (run (relay_up url) []
      (send_message_to_host toy none "h" alice "inbox" "hi" false false none none no_fees)).0

sent : sent_to "h/sendMessage" ≡ ok "00"
unfolding sent_to
sent = refl

acknowledged_on : String → Fallible (Unit {0})
unfolding run acknowledge_on_hosts acknowledge_on_all acknowledge_message_on_host post_json
    check_status_error bind string_dec
acknowledged_on url =
    (run (relay_up url) []
      (acknowledge_on_hosts toy ("1" ∷ []) "all failed" "a" ("a" ∷ "b" ∷ []))).0

-- One host is enough.
acknowledged : acknowledged_on "b/acknowledgeMessage" ≡ ok tt
unfolding acknowledged_on
acknowledged = refl

not_acknowledged : acknowledged_on "c/acknowledgeMessage" ≡ err (http 0 "all failed")
unfolding acknowledged_on
not_acknowledged = refl

send_message_to_host-Delivered_example :
    AllRuns
      (DeliveredOk toy none "h" alice "inbox" "hi" false)
      []
      (send_message_to_host toy none "h" alice "inbox" "hi" false false none none no_fees)
send_message_to_host-Delivered_example =
    send_message_to_host-Delivered toy none "h" alice "inbox" "hi" false false none none no_fees []
