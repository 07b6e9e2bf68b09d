-- ===== src/Client/Live/Delivered.antt =====
-- What the result of `send_live_message` says of the run.
use mathlib.Core.List.{Memᴰ}
use rust_messagebox_client.Prelude.{
  String, ◌≡◌, refl, ◌∙◌, Bool, true, false, Option, none, some, List, ◌∷◌,
}
use rust_messagebox_client.Error.{ok, err, Fallible}
use rust_messagebox_client.Deps.{Deps}
use rust_messagebox_client.Io.{
  socket_emit, await_waiter, load_socket, bind, perform, of_prog, ◌>>=◌,
}
use rust_messagebox_client.Io.Runs.{
  Event, AllRuns, Extends, AllRuns-Extends, AllRuns-and, AllRuns-bind, AllRuns-then,
}
use rust_messagebox_client.Io.Avoids.{fetches, Avoids-fetches}
use rust_messagebox_client.Session.{Client, get_identity_key}
use rust_messagebox_client.HttpOps.Send.Delivered.{Wires, WiresOk, Wires-Extends, wire_body-Wires}
use rust_messagebox_client.HttpOps.Outbox.Stored.{
  Stored, StoredOk, send_to_host-Stored, send_message-Stored,
}
use rust_messagebox_client.Delivery.{DeliveryMode, live, persisted}
use rust_messagebox_client.Websocket.Socket as Socket
use rust_messagebox_client.Client.Live.{
  room_of, ack_key_of, payload, http_send, persist, emit_and_wait, judge_ack, send_on_socket,
  is_elsewhere, ensure_ws_connected, after_join, send_joined, send_connected, send_here,
  send_unless, drop_stale, send_live_message,
}
use rust_messagebox_client.Client.Live.Quiet.{
  join_room-Quiet, drop_stale-Quiet, get_identity_key-Quiet, ensure_ws_connected-Quiet,
  is_elsewhere-Quiet, wire_body-Quiet, resolve_message_id-Quiet,
}

module _ (D : Deps) (client : Client) (recipient message_box body : String)
    (skip check : Bool) where
  -- The relay acknowledged the room after the socket had sent the message with this id, and nothing
  -- was sent over HTTP.
  pub record Acked (before log : List (Event D)) (id : String) : Type 0 where
    pub wire : String
    pub wires : Wires D client.originator "" recipient message_box body skip log wire
    pub emitted :
        Memᴰ
          (
            socket_emit "sendMessage"
                (payload D client (room_of recipient message_box) id recipient wire),
            ok tt,
          )
          log
    pub acked : Memᴰ (await_waiter (ack_key_of (room_of recipient message_box)), true) log
    pub quiet : fetches log ≡ fetches before

  abbrev pub SentOk :
      Option String → List (Event D) → List (Event D) → Fallible DeliveryMode → Type 0
  SentOk override_host before log (ok (live id)) = Acked before log id
  SentOk override_host before log (ok (persisted id)) =
      Stored D client recipient message_box body skip check override_host log id
  SentOk override_host before log (err _) = Unit

  http_send-Stored :
      (override_host id : Option String) (log : List (Event D))
      → AllRuns
          (StoredOk D client recipient message_box body skip check override_host)
          log
          (http_send D client recipient message_box body skip check override_host override_host id)
  http_send-Stored (some host) id log =
      send_to_host-Stored D client recipient message_box body skip check (some host) host id log
        refl
  http_send-Stored none id log =
      send_message-Stored D client recipient message_box body skip check id none log

  module _ (override_host : Option String) (before : List (Event D)) where
    persist-SentOk :
        (id : Option String) (log : List (Event D))
        → AllRuns
            (SentOk override_host before)
            log
            (persist D client recipient message_box body skip check override_host id)
    persist-SentOk id log =
        AllRuns-then (StoredOk D client recipient message_box body skip check override_host)
          (SentOk override_host before) log _ _ (http_send-Stored override_host id log)
          (λ log' id' stored. stored) (λ log' e h. tt)

    fallback-SentOk :
        (ack_key id : String) (log : List (Event D))
        → AllRuns (SentOk override_host before) log (
            judge_ack D client recipient message_box body skip check override_host ack_key id false)
    unfolding bind Socket.remove_ack
    fallback-SentOk ack_key id log = elim [
      | none ↦ persist-SentOk none _
      | some connected ↦ λ popped. persist-SentOk none _
    ]

    emitted-SentOk :
        (socket : Option Bool) (id wire : String) (log : List (Event D))
        → fetches log ≡ fetches before
        → Wires D client.originator "" recipient message_box body skip log wire
        → AllRuns (SentOk override_host before) log (
            emit_and_wait D client recipient message_box body skip check override_host socket
              (payload D client (room_of recipient message_box) id recipient wire)
              (ack_key_of (room_of recipient message_box))
            >>= judge_ack D client recipient message_box body skip check override_host
                (ack_key_of (room_of recipient message_box))
                id)
    unfolding bind Socket.emit_send_message
    emitted-SentOk none id wire log quiet wires = fallback-SentOk _ id log
    emitted-SentOk (some connected) id wire log quiet wires = λ pushed. elim [
      | err e ↦ λ popped. tt
      | ok u ↦ elim [
        | false ↦ fallback-SentOk _ id _
        | true ↦ record {
          wire = wire;
          wires =
              Wires-Extends D client.originator "" recipient message_box body skip log _ wire
                (λ e m. Memᴰ.tail (Memᴰ.tail (Memᴰ.tail m))) wires;
          emitted = Memᴰ.tail (Memᴰ.head refl);
          acked = Memᴰ.head refl;
          quiet = quiet;
        }
      ]
    ]

    loaded-SentOk :
        (log' : List (Event D)) (id' wire : String)
        → fetches log' ≡ fetches before
        → Wires D client.originator "" recipient message_box body skip log' wire
        → AllRuns (SentOk override_host before) log' (
            of_prog (perform load_socket) >>= λ socket.
            emit_and_wait D client recipient message_box body skip check override_host socket
              (payload D client (room_of recipient message_box) id' recipient wire)
              (ack_key_of (room_of recipient message_box))
            >>= judge_ack D client recipient message_box body skip check override_host
                (ack_key_of (room_of recipient message_box))
                id')
    unfolding bind
    loaded-SentOk log' id' wire same wires = λ socket.
        emitted-SentOk socket id' wire ((load_socket, socket) ∷ log') same (
          Wires-Extends D client.originator "" recipient message_box body skip log' _ wire
            (λ e m. Memᴰ.tail m) wires)

    send_on_socket-SentOk :
        (id : Option String) (log : List (Event D))
        → fetches log ≡ fetches before
        → AllRuns
            (SentOk override_host before)
            log
            (send_on_socket D client recipient message_box body skip check override_host id)
    send_on_socket-SentOk id log quiet =
        AllRuns-then
          (λ log' r.
            (fetches log' ≡ fetches log)
            × WiresOk D client.originator "" recipient message_box body skip log' r)
          (SentOk override_host before) log _ _
          (AllRuns-and _ _ log _
            (Avoids-fetches _ log (wire_body-Quiet D client recipient message_box body skip))
            (wire_body-Wires D client.originator "" recipient message_box body skip log))
          (λ log1 wire (same1, wires).
            AllRuns-then (λ log' _. (fetches log' ≡ fetches log1) × Extends log1 log')
              (SentOk override_host before) log1 _ _
              (AllRuns-and _ _ log1 _
                (Avoids-fetches _ log1
                  (resolve_message_id-Quiet D client recipient message_box body id))
                (AllRuns-Extends log1 _))
              (λ log2 id' (same2, ext). loaded-SentOk log2 id' wire (same2 ∙ same1 ∙ quiet) (
                Wires-Extends D client.originator "" recipient message_box body skip log1 log2 wire
                  ext wires))
              (λ log2 e h. tt))
          (λ log1 e h. tt)

    after_join-SentOk :
        (id : Option String) (r : Fallible (Unit {0})) (log : List (Event D))
        → fetches log ≡ fetches before
        → AllRuns
            (SentOk override_host before)
            log
            (after_join D client recipient message_box body skip check override_host id r)
    after_join-SentOk id (err e) log quiet = persist-SentOk id log
    after_join-SentOk id (ok u) log quiet = send_on_socket-SentOk id log quiet

    send_joined-SentOk :
        (id : Option String) (my_room : String) (socket : Option Bool) (log : List (Event D))
        → fetches log ≡ fetches before
        → AllRuns (SentOk override_host before) log (
            send_joined D client recipient message_box body skip check override_host id my_room
              socket)
    send_joined-SentOk id my_room none log quiet = persist-SentOk id log
    send_joined-SentOk id my_room (some connected) log quiet =
        AllRuns-bind (λ log' _. fetches log' ≡ fetches log) (SentOk override_host before) log _ _
          (Avoids-fetches (Socket.join_room D my_room) log (join_room-Quiet D my_room))
          (λ log' r same. after_join-SentOk id r log' (same ∙ quiet))

    send_connected-SentOk :
        (id : Option String) (r : Fallible (Unit {0})) (log : List (Event D))
        → fetches log ≡ fetches before
        → AllRuns
            (SentOk override_host before)
            log
            (send_connected D client recipient message_box body skip check override_host id r)
    unfolding bind
    send_connected-SentOk id (err e) log quiet = persist-SentOk id log
    send_connected-SentOk id (ok u) log quiet =
        AllRuns-then (λ log' _. fetches log' ≡ fetches log) (SentOk override_host before) log _ _
          (Avoids-fetches (get_identity_key D client) log (get_identity_key-Quiet D client))
          (λ log' key same socket.
            send_joined-SentOk id (room_of key message_box) socket _ (same ∙ quiet))
          (λ log' e h. tt)

    send_here-SentOk :
        (id : Option String) (log : List (Event D))
        → fetches log ≡ fetches before
        → AllRuns
            (SentOk override_host before)
            log
            (send_here D client recipient message_box body skip check override_host id)
    send_here-SentOk id log quiet =
        AllRuns-bind (λ log' _. fetches log' ≡ fetches log) (SentOk override_host before) log _ _
          (Avoids-fetches (drop_stale D) log (drop_stale-Quiet D))
          (λ log1 u same1.
            AllRuns-bind (λ log' _. fetches log' ≡ fetches log1) (SentOk override_host before) log1
              _ _
              (Avoids-fetches (ensure_ws_connected D client override_host) log1
                (ensure_ws_connected-Quiet D client override_host))
              (λ log2 r same2. send_connected-SentOk id r log2 (same2 ∙ same1 ∙ quiet)))

    send_unless-SentOk :
        (elsewhere : Bool) (id : Option String) (log : List (Event D))
        → fetches log ≡ fetches before
        → AllRuns
            (SentOk override_host before)
            log
            (send_unless D client recipient message_box body skip check override_host elsewhere id)
    send_unless-SentOk true id log quiet = persist-SentOk id log
    send_unless-SentOk false id log quiet = send_here-SentOk id log quiet

  -- In every run of `send_live_message`: if it returns `Live`, the socket sent the message with the
  -- id that is returned, the body in it is the given one, or unless encryption was to be skipped the
  -- wallet's ciphertext of it, the waiter for the room got `true`, and the run made no request over
  -- HTTP, so the message was not sent twice; if it returns `Persisted`, the last call was the POST of
  -- the message to the override, or without one to the host that the overlay gave for the recipient,
  -- and this host answered that it holds the message.
  pub send_live_message-SentOk :
      (override_host id : Option String) (log : List (Event D))
      → AllRuns
          (SentOk override_host log)
          log
          (send_live_message D client recipient message_box body skip check override_host id)
  unfolding send_live_message
  send_live_message-SentOk override_host id log =
      AllRuns-bind (λ log' _. fetches log' ≡ fetches log) (SentOk override_host log) log _ _
        (Avoids-fetches (is_elsewhere D client override_host recipient) log
          (is_elsewhere-Quiet D client override_host recipient))
        (λ log' elsewhere same. send_unless-SentOk override_host log elsewhere id log' same)
