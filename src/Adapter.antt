-- ===== src/Adapter.antt =====
-- `RemittanceAdapter` of src/adapter.rs: the client behind the SDK's `CommsLayer`. An error of the
-- client becomes `RemittanceError::Protocol` of its text.
use rust_messagebox_client.Prelude.{String, Option, none, some, List, map, false}
use rust_messagebox_client.Error.{Result, ok, err, Fallible, display}
use rust_messagebox_client.Types.{PeerMessage, ServerPeerMessage}
use rust_messagebox_client.Deps.{Deps}
use rust_messagebox_client.Io.{Prog, Io, ret, bind, ◌>>=◌}
use rust_messagebox_client.Session.{Client, get_identity_key}
use rust_messagebox_client.Delivery
use rust_messagebox_client.Client.Live
use rust_messagebox_client.Client.Listen
use rust_messagebox_client.HttpOps.Outbox
use rust_messagebox_client.HttpOps.Inbox

pub data RemittanceError : Type 0 where
  protocol : String → RemittanceError

-- `map_err(|e| RemittanceError::Protocol(e.to_string()))`
abbrev pub as_protocol {ℓ} : {A : Type ℓ} → Fallible A → Result A RemittanceError
as_protocol (ok a) = ok a
as_protocol (err e) = err (protocol (display e))

abbrev pub peer_message : String → String → ServerPeerMessage → PeerMessage
peer_message identity_key message_box m = record {
  message_id = m.message_id;
  sender = m.sender;
  recipient = identity_key;
  message_box = message_box;
  body = m.body;
}

module _ (D : Deps) (client : Client) where
  abbrev protocol_errors {ℓ} : {A : Type ℓ} → Io D A → Prog D (Result A RemittanceError)
  protocol_errors p = bind p (λ r. ret (as_protocol r))

  abbrev send_to : String → String → String → Option String → Io D String
  send_to recipient message_box body (some host) =
      Outbox.send_to_host D client host recipient message_box body false false none none
  send_to recipient message_box body none =
      Outbox.send_message D client recipient message_box body false false none none

  unfoldable pub send_message :
      String → String → String → Option String → Prog D (Result String RemittanceError)
  send_message recipient message_box body host_override =
      protocol_errors (send_to recipient message_box body host_override)

  abbrev list_all : String → Option String → Io D (List PeerMessage)
  list_all message_box host = do
    identity_key ← get_identity_key D client
    server_msgs ← Inbox.list_messages_lite D client message_box host
    ret (ok (map (peer_message identity_key message_box) server_msgs))

  unfoldable pub list_messages :
      String → Option String → Prog D (Result (List PeerMessage) RemittanceError)
  list_messages message_box host = protocol_errors (list_all message_box host)

  unfoldable pub acknowledge_message : List String → Prog D (Result (Unit {0}) RemittanceError)
  acknowledge_message message_ids =
      protocol_errors (Inbox.acknowledge_message D client message_ids none)

  abbrev send_live : String → String → String → Option String → Io D String
  send_live recipient message_box body host_override = do
    delivery ←
        Live.send_live_message D client recipient message_box body false false host_override none
    ret (ok (Delivery.message_id delivery))

  unfoldable pub send_live_message :
      String → String → String → Option String → Prog D (Result String RemittanceError)
  send_live_message recipient message_box body host_override =
      protocol_errors (send_live recipient message_box body host_override)

  unfoldable pub listen_for_live_messages :
      String → Option String → Prog D (Result (Unit {0}) RemittanceError)
  listen_for_live_messages message_box override_host =
      protocol_errors (Listen.listen_for_live_messages D client message_box override_host)
