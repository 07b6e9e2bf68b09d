-- ===== src/Tests/Live.antt =====
-- Live sends, lists of several hosts, tokens and requests at concrete data.
use rust_messagebox_client.Prelude.{◌≡◌, refl, List, true, false, none, some, [], ◌∷◌}
use rust_messagebox_client.Error.{ok, err}
use rust_messagebox_client.Types.{IncomingPaymentRequest}
use rust_messagebox_client.Io.{Call, Reply, members, socket_connect, bind}
use rust_messagebox_client.Io.Runs.{Event, AllRuns, run}
use rust_messagebox_client.Session.{Client, get_identity_key}
use rust_messagebox_client.Session.Init.{init}
use rust_messagebox_client.Session.Init.Ready.{Ready, init-Ready}
use rust_messagebox_client.Delivery.{live}
use rust_messagebox_client.Websocket.Socket as Socket
use rust_messagebox_client.Client.Live.{
  send_live_message, ensure_ws_connected, spawn_reconnect_supervisor,
}
use rust_messagebox_client.Client.Live.Delivered.{SentOk, send_live_message-SentOk}
use rust_messagebox_client.Client.Listen.{retry, reconnect_base_backoff, next_backoff}
use rust_messagebox_client.Io.Avoids.{sleeps}
use rust_messagebox_client.Tests.Toy.{toy, usual, alice}

abbrev client : Client
client = record { host = "h"; originator = none }

-- With a connected socket and an acknowledgement the send is live.
acknowledged :
    (run
      (λ log c. usual c)
      []
      (send_live_message toy client "02bb" "inbox" "hi" true false (some "h") (some "m1"))).0
    ≡ ok (live "m1")
unfolding send_live_message ensure_ws_connected spawn_reconnect_supervisor get_identity_key
    Socket.join_room Socket.emit_send_message run bind
acknowledged = refl

send_live_message-SentOk_example :
    AllRuns
      (SentOk toy client "02bb" "inbox" "hi" true false (some "h") [])
      []
      (send_live_message toy client "02bb" "inbox" "hi" true false (some "h") (some "m1"))
send_live_message-SentOk_example =
    send_live_message-SentOk toy client "02bb" "inbox" "hi" true false (some "h") (some "m1") []

abbrev request : IncomingPaymentRequest
request = record {
  message_id = "m1";
  sender = alice;
  request_id = "r1";
  amount = 5000;
  description = "lunch";
  expires_at = 100;
}

init-Ready_example : AllRuns (Ready toy client) [] (init toy client (some "g"))
init-Ready_example = init-Ready toy client (some "g") []

-- Two failures and a success: the waits are of 250 and 500 ms.
flaky : List (Event toy) → (c : Call toy) → Reply toy c
flaky log (members _) = "room" ∷ []
flaky (_ ∷ _ ∷ _ ∷ _ ∷ _ ∷ log) (socket_connect _ _) = ok tt
flaky log (socket_connect _ _) = err "down"
flaky log c = usual c

retried : sleeps (run flaky [] (retry toy "h" alice 5 reconnect_base_backoff)).1 ≡ 500 ∷ 250 ∷ []
unfolding flaky run retry next_backoff Socket.reconnect_ws Socket.connect Socket.replay
    Socket.join_room Socket.subscribe bind
retried = refl
