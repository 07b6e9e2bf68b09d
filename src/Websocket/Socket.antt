-- ===== src/Websocket/Socket.antt =====
-- `MessageBoxWebSocket` of src/websocket.rs, over the calls of the authenticated socket. The sets, the
-- callbacks and the queues of waiters are calls, one for each time the source locks them; from a
-- successful `socket_connect` on they are those of the new socket, which are empty.
use rust_messagebox_client.Prelude.{String, ◌<>◌, Bool, true, false, List, [], ◌∷◌}
use rust_messagebox_client.Error.{Result, ok, err, Fallible, web_socket}
use rust_messagebox_client.Deps.{Deps}
use rust_messagebox_client.Io.{
  socket_rooms, socket_subscriptions, client_subscriptions, is_member, insert_member, remove_member,
  members, clear_members, push_waiter, pop_newest_waiter, pop_oldest_waiter, drain_waiters,
  store_socket, socket_connect, socket_join, socket_leave, socket_emit, socket_disconnect, Prog, Io,
  ret, bind, perform, of_prog, of_call, ◌>>=◌, ◌>>◌,
}

abbrev pub event_key : String → String
event_key room_id = "sendMessage-" <> room_id

module _ (D : Deps) where
  unfoldable pub connect : String → String → Io D (Unit {0})
  connect url identity_key = of_call web_socket (perform (socket_connect url identity_key))

  abbrev join_unless : Bool → String → Io D (Unit {0})
  join_unless true room_id = ret (ok tt)
  join_unless false room_id = do
    of_call web_socket (perform (socket_join room_id))
    of_prog (perform (insert_member socket_rooms room_id))

  unfoldable pub join_room : String → Io D (Unit {0})
  join_room room_id =
      bind (perform (is_member socket_rooms room_id)) (λ joined. join_unless joined room_id)

  unfoldable pub leave_room : String → Io D (Unit {0})
  leave_room room_id = do
    of_prog (perform (remove_member socket_rooms room_id))
    of_prog (perform (remove_member socket_subscriptions (event_key room_id)))
    of_call web_socket (perform (socket_leave room_id))

  unfoldable pub subscribe : String → Prog D (Unit {0})
  subscribe key = perform (insert_member socket_subscriptions key)

  -- After the emit: a failed one takes a waiter back.
  abbrev pub after_emit : String → Result (Unit {0}) String → Io D (Unit {0})
  after_emit ack_key (ok _) = ret (ok tt)
  after_emit ack_key (err e) =
      bind (perform (pop_newest_waiter ack_key)) (λ _. ret (err (web_socket e)))

  unfoldable pub emit_send_message : D.Value → String → Io D (Unit {0})
  emit_send_message payload ack_key =
      bind (perform (push_waiter ack_key))
        λ _. bind (perform (socket_emit "sendMessage" payload)) λ r. after_emit ack_key r

  unfoldable pub remove_ack : String → Prog D (Unit {0})
  remove_ack key = perform (pop_oldest_waiter key)

  unfoldable pub disconnect : Io D (Unit {0})
  disconnect = do
    of_prog (perform drain_waiters)
    of_prog (perform (clear_members socket_subscriptions))
    of_prog (perform (clear_members socket_rooms))
    of_call web_socket (perform socket_disconnect)

  -- `reconnect_ws` of src/client.rs: the rooms of the client's subscriptions are joined again, and
  -- the callbacks of those that could be are registered.
  abbrev pub resubscribe : String → Fallible (Unit {0}) → Prog D (Unit {0})
  resubscribe room_id (err _) = ret tt
  resubscribe room_id (ok _) = subscribe (event_key room_id)

  unfoldable pub replay : List String → Prog D (Unit {0})
  replay [] = ret tt
  replay (room_id ∷ rooms) =
      bind (join_room room_id) λ r. bind (resubscribe room_id r) λ _. replay rooms

  unfoldable pub reconnect_ws : String → String → Io D (Unit {0})
  reconnect_ws ws_url identity_key = do
    connect ws_url identity_key
    rooms ← of_prog (perform (members client_subscriptions))
    of_prog (replay rooms)
    of_prog (perform (store_socket true))
