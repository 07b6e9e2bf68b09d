-- ===== src/Client/Live.antt =====
-- The live operations of src/client.rs: the connection, the rooms, and `send_live_message` with its
-- ten seconds for an acknowledgement and its fallback to HTTP.
pub mod Quiet
pub mod Delivered
use rust_messagebox_client.Prelude.{
  String, ◌<>◌, Bool, true, false, not, Option, none, some, [], ◌∷◌, ◌=?◌, unwrap_or,
}
use rust_messagebox_client.Prelude.Text.{trim}
use rust_messagebox_client.Error.{ok, err, Fallible}
use rust_messagebox_client.Deps.{Deps}
use rust_messagebox_client.Io.{
  client_rooms, client_subscriptions, insert_member, remove_member, load_supervisor,
  spawn_supervisor, await_waiter, load_socket, store_socket, Prog, Io, ret, bind, perform, of_prog,
  ◌>>=◌, ◌>>◌,
}
use rust_messagebox_client.Session.{Client, get_identity_key}
use rust_messagebox_client.HostResolution.{resolve_host_for_recipient}
use rust_messagebox_client.HttpOps.Send.{wire_body, resolve_message_id}
use rust_messagebox_client.HttpOps.Outbox.{send_to_host, send_message}
use rust_messagebox_client.Delivery.{DeliveryMode, live, persisted}
use rust_messagebox_client.Websocket.Socket as Socket

abbrev pub room_of : String → String → String
room_of key message_box = key <> ("-" <> message_box)

abbrev pub ack_key_of : String → String
ack_key_of room_id = "sendMessageAck-" <> room_id

-- `map(|ws| ws.is_connected()).unwrap_or(false)`
abbrev is_connected : Option Bool → Bool
is_connected none = false
is_connected (some connected) = connected

-- `map(|ws| !ws.is_connected()).unwrap_or(false)`
abbrev is_stale : Option Bool → Bool
is_stale none = false
is_stale (some connected) = not connected

module _ (D : Deps) where
  -- `if let Some(ref ws) = *guard { … }`
  abbrev pub with_socket : Option Bool → Io D (Unit {0}) → Io D (Unit {0})
  with_socket none p = ret (ok tt)
  with_socket (some _) p = p

  abbrev pub on_socket : Io D (Unit {0}) → Io D (Unit {0})
  on_socket p = bind (perform load_socket) (λ socket. with_socket socket p)

  abbrev take_socket : Option Bool → Io D (Unit {0})
  take_socket none = ret (ok tt)
  take_socket (some _) = bind (perform (store_socket false)) (λ _. Socket.disconnect D)

  unfoldable pub disconnect_web_socket : Io D (Unit {0})
  disconnect_web_socket = bind (perform load_socket) (λ socket. take_socket socket)

  -- A connection that is down is taken down; a failure of that is passed over.
  abbrev drop_if : Bool → Prog D (Unit {0})
  drop_if false = ret tt
  drop_if true = bind disconnect_web_socket (λ _. ret tt)

  abbrev drop_stale : Prog D (Unit {0})
  drop_stale = bind (perform load_socket) (λ socket. drop_if (is_stale socket))

  module _ (client : Client) where
    abbrev spawn_unless : Bool → Option String → Io D (Unit {0})
    spawn_unless true override_host = ret (ok tt)
    spawn_unless false override_host = do
      identity_key ← get_identity_key D client
      of_prog (perform (spawn_supervisor (unwrap_or override_host client.host) identity_key))

    unfoldable pub spawn_reconnect_supervisor : Option String → Io D (Unit {0})
    spawn_reconnect_supervisor override_host =
        bind (perform load_supervisor) (λ set. spawn_unless set override_host)

    abbrev connect_unless : Bool → Option String → Io D (Unit {0})
    connect_unless true override_host = spawn_reconnect_supervisor override_host
    connect_unless false override_host = do
      identity_key ← get_identity_key D client
      Socket.reconnect_ws D (unwrap_or override_host client.host) identity_key
      spawn_reconnect_supervisor override_host

    unfoldable pub ensure_ws_connected : Option String → Io D (Unit {0})
    ensure_ws_connected override_host =
        bind (perform load_socket) (λ socket. connect_unless (is_connected socket) override_host)

    unfoldable pub initialize_connection : Option String → Io D (Unit {0})
    initialize_connection override_host = ensure_ws_connected override_host

    unfoldable pub join_room : String → Io D (Unit {0})
    join_room message_box = do
      identity_key ← get_identity_key D client
      ensure_ws_connected none
      on_socket (Socket.join_room D (room_of identity_key message_box))
      of_prog (perform (insert_member client_rooms (room_of identity_key message_box)))

    unfoldable pub leave_room : String → Io D (Unit {0})
    leave_room message_box = do
      identity_key ← get_identity_key D client
      of_prog (perform (remove_member client_rooms (room_of identity_key message_box)))
      of_prog (perform (remove_member client_subscriptions (room_of identity_key message_box)))
      on_socket (Socket.leave_room D (room_of identity_key message_box))

    abbrev host_or : Fallible String → String
    host_or (ok host) = host
    host_or (err _) = client.host

    -- Whether the recipient's host is another one than the client's.
    abbrev pub is_elsewhere : Option String → String → Prog D Bool
    is_elsewhere (some _) recipient = ret false
    is_elsewhere none recipient =
        bind (resolve_host_for_recipient D client recipient)
          λ r. ret (not (trim (host_or r) =? trim client.host))

    abbrev pub payload : String → String → String → String → D.Value
    payload room_id message_id recipient wire = D.object_value (
        ("roomId", D.string_value room_id)
        ∷ (
          "message",
          D.object_value (
              ("messageId", D.string_value message_id)
              ∷ ("recipient", D.string_value recipient)
              ∷ ("body", D.string_value wire)
              ∷ []),
        )
        ∷ [])

    module _ (recipient message_box body : String) (skip_encryption check_permissions : Bool)
        (override_host : Option String) where
      -- The send over HTTP, to the override or to the recipient's host.
      abbrev pub http_send : Option String → Option String → Io D String
      http_send (some host) message_id =
          send_to_host D client host recipient message_box body skip_encryption check_permissions
            message_id none
      http_send none message_id =
          send_message D client recipient message_box body skip_encryption check_permissions
            message_id none

      abbrev pub persist : Option String → Io D DeliveryMode
      persist message_id = do id ← http_send override_host message_id; ret (ok (persisted id))

      -- Whether `true` came through the channel in time. Without a socket nothing is emitted, and
      -- no one has the channel's other end.
      abbrev pub emit_and_wait : Option Bool → D.Value → String → Io D Bool
      emit_and_wait none value ack_key = ret (ok false)
      emit_and_wait (some _) value ack_key = do
        Socket.emit_send_message D value ack_key
        of_prog (perform (await_waiter ack_key))

      abbrev remove_on : Option Bool → String → Prog D (Unit {0})
      remove_on none ack_key = ret tt
      remove_on (some _) ack_key = Socket.remove_ack D ack_key

      abbrev pub judge_ack : String → String → Bool → Io D DeliveryMode
      judge_ack ack_key message_id true = ret (ok (live message_id))
      judge_ack ack_key message_id false =
          bind (perform load_socket) λ socket. bind (remove_on socket ack_key) λ _. persist none

      abbrev pub send_on_socket : Option String → Io D DeliveryMode
      send_on_socket message_id = do
        wire ← wire_body D client.originator "" recipient message_box body skip_encryption
        id ← resolve_message_id D client.originator "" recipient message_box body message_id
        socket ← of_prog (perform load_socket)
        acked ←
            emit_and_wait socket (payload (room_of recipient message_box) id recipient wire)
              (ack_key_of (room_of recipient message_box))
        judge_ack (ack_key_of (room_of recipient message_box)) id acked

      abbrev pub after_join : Option String → Fallible (Unit {0}) → Io D DeliveryMode
      after_join message_id (err _) = persist message_id
      after_join message_id (ok _) = send_on_socket message_id

      abbrev pub send_joined : Option String → String → Option Bool → Io D DeliveryMode
      send_joined message_id my_room none = persist message_id
      send_joined message_id my_room (some _) =
          bind (Socket.join_room D my_room) λ r. after_join message_id r

      abbrev pub send_connected : Option String → Fallible (Unit {0}) → Io D DeliveryMode
      send_connected message_id (err _) = persist message_id
      send_connected message_id (ok _) = do
        identity_key ← get_identity_key D client
        bind (perform load_socket)
            λ socket. send_joined message_id (room_of identity_key message_box) socket

      abbrev pub send_here : Option String → Io D DeliveryMode
      send_here message_id =
          bind drop_stale
            λ _. bind (ensure_ws_connected override_host) λ r. send_connected message_id r

      abbrev pub send_unless : Bool → Option String → Io D DeliveryMode
      send_unless true message_id = persist message_id
      send_unless false message_id = send_here message_id

      unfoldable pub send_live_message : Option String → Io D DeliveryMode
      send_live_message message_id =
          bind (is_elsewhere override_host recipient) λ elsewhere. send_unless elsewhere message_id
