-- ===== src/Websocket/Dispatch.antt =====
-- The dispatcher of `MessageBoxWebSocket::connect` in src/websocket.rs: what one event does.
pub mod Routed
use mathlib.Core.Option
use rust_messagebox_client.Prelude.{ℕ, String, Bool, true, false, Option, none, some, List, ◌=?◌}
use rust_messagebox_client.Prelude.Text.{strip_prefix}
use rust_messagebox_client.Error.{Result, ok, err}
use rust_messagebox_client.Types.{AuthenticatedPeerMessage, ServerPeerMessage}
use rust_messagebox_client.Deps.{Deps}
use rust_messagebox_client.Io.{
  socket_subscriptions, is_member, resolve_waiter, Prog, ret, bind, perform,
}
use rust_messagebox_client.Encryption.{
  DecryptOutcome, into_body, is_authenticated, try_decrypt_message_typed,
}
use rust_messagebox_client.Websocket.Room.{split_room_id}

module _ (D : Deps) (originator : Option String) where
  open D use {Value, get, as_str, as_bytes, from_utf8, server_peer_message}

  -- A slice of a text at a character's boundary, as the text it is.
  abbrev text_of : List ℕ → String
  text_of bytes = elim (from_utf8 bytes) [ ok s ↦ s | err _ ↦ "" ]

  abbrev pub live_message : String → ServerPeerMessage → DecryptOutcome → AuthenticatedPeerMessage
  live_message room_id server_msg outcome =
      let (recipient, message_box) = split_room_id (as_bytes room_id) in
      record {
        message_id = server_msg.message_id;
        sender = server_msg.sender;
        recipient = text_of recipient;
        message_box = text_of message_box;
        body = into_body outcome;
        authenticated_decrypt = is_authenticated outcome;
      }

  -- What the callback of the event gets, if there is one.
  abbrev pub hand_over :
      String → ServerPeerMessage → Bool → Prog D (Option AuthenticatedPeerMessage)
  hand_over room_id server_msg false = ret none
  hand_over room_id server_msg true =
      bind (try_decrypt_message_typed D server_msg.body server_msg.sender originator)
        λ outcome. ret (some (live_message room_id server_msg outcome))

  abbrev pub on_message :
      String → String → Result ServerPeerMessage String → Prog D (Option AuthenticatedPeerMessage)
  on_message event_name room_id (err _) = ret none
  on_message event_name room_id (ok server_msg) =
      bind (perform (is_member socket_subscriptions event_name))
        λ subscribed. hand_over room_id server_msg subscribed

  abbrev pub succeeded : Value → Bool
  succeeded event = elim (Option.bind (get event "status") as_str) [
    | none ↦ false
    | some status ↦ status =? "success"
  ]

  abbrev pub on_acknowledgement :
      String → Value → Option String → Prog D (Option AuthenticatedPeerMessage)
  on_acknowledgement event_name event none = ret none
  on_acknowledgement event_name event (some _) =
      bind (perform (resolve_waiter event_name (succeeded event))) (λ _. ret none)

  abbrev pub dispatch_named :
      String → Value → Option String → Prog D (Option AuthenticatedPeerMessage)
  dispatch_named event_name event (some room_id) =
      on_message event_name room_id (server_peer_message event)
  dispatch_named event_name event none =
      on_acknowledgement event_name event (strip_prefix "sendMessageAck-" event_name)

  unfoldable pub dispatch : String → Value → Prog D (Option AuthenticatedPeerMessage)
  dispatch event_name event =
      dispatch_named event_name event (strip_prefix "sendMessage-" event_name)
