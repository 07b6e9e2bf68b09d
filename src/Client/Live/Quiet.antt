-- ===== src/Client/Live/Quiet.antt =====
-- What a live send does before its outcome is known makes no request over HTTP and
-- does not wait.
use rust_messagebox_client.Prelude.{
  String, Bool, true, false, Option, none, some, List, [], ◌∷◌, refl,
}
use rust_messagebox_client.Error.{Result, ok, err, Fallible}
use rust_messagebox_client.Deps.{Deps}
use rust_messagebox_client.Io.{bind}
use rust_messagebox_client.Io.Avoids.{is_outer, Avoids, Avoids-bind, Avoids-then, Avoids-of_call}
use rust_messagebox_client.Encryption.{encrypt_body, generate_message_id}
use rust_messagebox_client.Session.{Client, identity_key_or, get_identity_key}
use rust_messagebox_client.HostResolution.{
  query_advertisements_inner, query_advertisements, resolve_host_for_recipient,
}
use rust_messagebox_client.HttpOps.Send.{wire_body, resolve_message_id}
use rust_messagebox_client.Websocket.Socket as Socket
use rust_messagebox_client.Client.Live.{
  is_elsewhere, drop_if, drop_stale, take_socket, disconnect_web_socket, connect_unless,
  spawn_unless, spawn_reconnect_supervisor, ensure_ws_connected, is_stale, is_connected,
}

module _ (D : Deps) where
  pub join_room-Quiet : (room : String) → Avoids is_outer (Socket.join_room D room)
  unfolding Socket.join_room bind
  join_room-Quiet room =
      (refl, elim [ true ↦ tt | false ↦ (refl, elim [ ok u ↦ (refl, λ r. tt) | err e ↦ tt ]) ])

  disconnect-Quiet : Avoids is_outer (Socket.disconnect D)
  unfolding Socket.disconnect bind
  disconnect-Quiet = (refl, λ u. (refl, λ u. (refl, λ u. (refl, λ r. tt))))

  resubscribe-Quiet :
      (room : String) (r : Fallible (Unit {0})) → Avoids is_outer (Socket.resubscribe D room r)
  unfolding Socket.subscribe
  resubscribe-Quiet room (err e) = tt
  resubscribe-Quiet room (ok u) = (refl, λ r. tt)

  replay-Quiet : (rooms : List String) → Avoids is_outer (Socket.replay D rooms)
  unfolding Socket.replay
  replay-Quiet [] = tt
  replay-Quiet (room ∷ rooms) =
      Avoids-bind _ _ _ (join_room-Quiet room)
        λ r. Avoids-bind _ _ _ (resubscribe-Quiet room r) λ u. replay-Quiet rooms

  pub reconnect_ws-Quiet : (url key : String) → Avoids is_outer (Socket.reconnect_ws D url key)
  unfolding Socket.reconnect_ws Socket.connect
  reconnect_ws-Quiet url key = Avoids-then _ _ _ (Avoids-of_call _ _ _ (refl, λ r. tt)) λ u.
      Avoids-then _ _ _ (Avoids-bind _ _ _ (refl, λ r. tt) (λ r. tt)) λ rooms.
        Avoids-then _ _ _ (Avoids-bind _ _ _ (replay-Quiet rooms) (λ r. tt))
          λ u'. Avoids-bind _ _ _ (refl, λ r. tt) (λ r. tt)

  after_emit-Quiet :
      (key : String) (r : Result (Unit {0}) String) → Avoids is_outer (Socket.after_emit D key r)
  unfolding bind
  after_emit-Quiet key (ok u) = tt
  after_emit-Quiet key (err e) = (refl, λ u. tt)

  take_socket-Quiet : (socket : Option Bool) → Avoids is_outer (take_socket D socket)
  unfolding bind
  take_socket-Quiet none = tt
  take_socket-Quiet (some b) = (refl, λ u. disconnect-Quiet)

  drop_if-Quiet : (stale : Bool) → Avoids is_outer (drop_if D stale)
  unfolding disconnect_web_socket
  drop_if-Quiet false = tt
  drop_if-Quiet true =
      Avoids-bind _ _ _ (Avoids-bind _ _ _ (refl, λ s. tt) take_socket-Quiet) (λ r. tt)

  pub drop_stale-Quiet : Avoids is_outer (drop_stale D)
  drop_stale-Quiet = Avoids-bind _ _ _ (refl, λ s. tt) (λ socket. drop_if-Quiet (is_stale socket))

  module _ (client : Client) where
    identity_key_or-Quiet :
        (cached : Option String) → Avoids is_outer (identity_key_or D client cached)
    unfolding bind
    identity_key_or-Quiet (some key) = tt
    identity_key_or-Quiet none = (refl, elim [ ok k ↦ (refl, λ u. tt) | err e ↦ tt ])

    pub get_identity_key-Quiet : Avoids is_outer (get_identity_key D client)
    unfolding get_identity_key bind
    get_identity_key-Quiet = (refl, identity_key_or-Quiet)

    spawn_unless-Quiet :
        (set : Bool) (override_host : Option String)
        → Avoids is_outer (spawn_unless D client set override_host)
    spawn_unless-Quiet true override_host = tt
    spawn_unless-Quiet false override_host =
        Avoids-then _ _ _ get_identity_key-Quiet
          (λ key. Avoids-bind _ _ _ (refl, λ u. tt) (λ u. tt))

    spawn-Quiet :
        (override_host : Option String)
        → Avoids is_outer (spawn_reconnect_supervisor D client override_host)
    unfolding spawn_reconnect_supervisor
    spawn-Quiet override_host =
        Avoids-bind _ _ _ (refl, λ b. tt) (λ set. spawn_unless-Quiet set override_host)

    connect_unless-Quiet :
        (connected : Bool) (override_host : Option String)
        → Avoids is_outer (connect_unless D client connected override_host)
    connect_unless-Quiet true override_host = spawn-Quiet override_host
    connect_unless-Quiet false override_host =
        Avoids-then _ _ _ get_identity_key-Quiet
          λ key. Avoids-then _ _ _ (reconnect_ws-Quiet _ key) λ u. spawn-Quiet override_host

    pub ensure_ws_connected-Quiet :
        (override_host : Option String)
        → Avoids is_outer (ensure_ws_connected D client override_host)
    unfolding ensure_ws_connected
    ensure_ws_connected-Quiet override_host =
        Avoids-bind _ _ _ (refl, λ s. tt)
          (λ socket. connect_unless-Quiet (is_connected socket) override_host)

    query-Quiet : (key : String) → Avoids is_outer (query_advertisements D client (some key) none)
    unfolding query_advertisements query_advertisements_inner bind
    query-Quiet key = (refl, elim [ ok outputs ↦ tt | err e ↦ tt ])

    pub is_elsewhere-Quiet :
        (override_host : Option String) (recipient : String)
        → Avoids is_outer (is_elsewhere D client override_host recipient)
    unfolding resolve_host_for_recipient
    is_elsewhere-Quiet (some h) recipient = tt
    is_elsewhere-Quiet none recipient =
        Avoids-bind _ _ _ (Avoids-then _ _ _ (query-Quiet recipient) (λ ads. tt)) (λ r. tt)

    module _ (recipient message_box body : String) where
      pub wire_body-Quiet :
          (skip : Bool)
          → Avoids is_outer (wire_body D client.originator "" recipient message_box body skip)
      unfolding encrypt_body
      wire_body-Quiet true = tt
      wire_body-Quiet false =
          Avoids-then _ _ _ tt
            λ pk. Avoids-then _ _ _ (Avoids-of_call _ _ _ (refl, λ r. tt)) λ c. tt

      pub resolve_message_id-Quiet :
          (id : Option String)
          → Avoids is_outer
              (resolve_message_id D client.originator "" recipient message_box body id)
      unfolding generate_message_id
      resolve_message_id-Quiet (some id) = tt
      resolve_message_id-Quiet none = Avoids-then _ _ _ tt λ json_body.
          Avoids-then _ _ _ tt
            λ pk. Avoids-then _ _ _ (Avoids-of_call _ _ _ (refl, λ r. tt)) λ hmac. tt
