-- ===== src/Client/Listen.antt =====
-- `listen_for_live_messages` and the loop of the reconnect supervisor in src/client.rs. A callback is
-- known by its room; the task of the poll backstop is a call that starts it, and Client/Backstop.antt
-- says what it does.
pub mod Rooms
pub mod Backoff
pub mod Ends
use rust_messagebox_client.Prelude.{
  ℕ, zero, suc, ◌*◌, String, Bool, true, false, not, Option, none, some, List, is_empty, leb,
  if◌then◌else◌,
}
use rust_messagebox_client.Error.{Result, ok, err, Fallible}
use rust_messagebox_client.Types.{PeerMessage, AuthenticatedPeerMessage}
use rust_messagebox_client.Deps.{Deps}
use rust_messagebox_client.Io.{
  client_rooms, client_subscriptions, insert_member, members, load_socket, spawn_poll, sleep,
  sleep_around, Prog, Io, ret, bind, perform, of_prog, ◌>>=◌, ◌>>◌,
}
use rust_messagebox_client.Session.{Client, get_identity_key}
use rust_messagebox_client.Websocket.Socket as Socket
use rust_messagebox_client.Client.Live.{room_of, ensure_ws_connected}

-- What the adapter of `listen_for_live_messages` hands to its callback.
abbrev pub legacy : AuthenticatedPeerMessage → PeerMessage
legacy m = record {
  message_id = m.message_id;
  sender = m.sender;
  recipient = m.recipient;
  message_box = m.message_box;
  body = m.body;
}

-- In milliseconds.
abbrev pub reconnect_base_backoff : ℕ
reconnect_base_backoff = 250

abbrev pub reconnect_max_backoff : ℕ
reconnect_max_backoff = 10000

-- `(backoff * 2).min(RECONNECT_MAX_BACKOFF)`
unfoldable pub next_backoff : ℕ → ℕ
next_backoff backoff =
    if leb (backoff * 2) reconnect_max_backoff then backoff * 2 else reconnect_max_backoff

-- A socket that exists and is dead.
abbrev pub needs_reconnect : Option Bool → Bool
needs_reconnect none = false
needs_reconnect (some connected) = not connected

module _ (D : Deps) where
  abbrev listen_on : Option Bool → String → Io D (Unit {0})
  listen_on none room_id = ret (ok tt)
  listen_on (some _) room_id = do
    Socket.join_room D room_id
    of_prog (Socket.subscribe D (Socket.event_key room_id))

  unfoldable pub listen_for_live_messages_typed : Client → String → Option String → Io D (Unit {0})
  listen_for_live_messages_typed client message_box override_host = do
    identity_key ← get_identity_key D client
    ensure_ws_connected D client override_host
    socket ← of_prog (perform load_socket)
    listen_on socket (room_of identity_key message_box)
    of_prog (perform (insert_member client_subscriptions (room_of identity_key message_box)))
    of_prog (perform (insert_member client_rooms (room_of identity_key message_box)))
    of_prog (perform (spawn_poll (room_of identity_key message_box) message_box))

  -- The legacy consumer: its callback gets `legacy` of what the typed one gets.
  unfoldable pub listen_for_live_messages : Client → String → Option String → Io D (Unit {0})
  listen_for_live_messages client message_box override_host =
      listen_for_live_messages_typed client message_box override_host

  module _ (ws_url identity_key : String) where
    -- One round of the inner loop, with the rounds that follow: whether it ends. A failed attempt is
    -- followed by a wait of the backoff, give or take a quarter of it.
    abbrev pub attempted : ℕ → Prog D Bool → Fallible (Unit {0}) → Prog D Bool
    attempted backoff rest (ok _) = ret true
    attempted backoff rest (err _) = bind (perform (sleep_around backoff)) λ _. rest

    abbrev pub attempt : ℕ → Prog D Bool → Bool → Prog D Bool
    attempt backoff rest true = ret true
    attempt backoff rest false =
        bind (Socket.reconnect_ws D ws_url identity_key) λ r. attempted backoff rest r

    -- The first rounds of the inner loop: whether it has ended in them.
    unfoldable pub retry : ℕ → ℕ → Prog D Bool
    retry zero backoff = ret false
    retry (suc rounds) backoff =
        let rest = retry rounds (next_backoff backoff) in
        bind (perform (members client_subscriptions)) λ rooms. attempt backoff rest (is_empty rooms)

    abbrev heal : ℕ → Bool → Prog D Bool
    heal rounds true = ret true
    heal rounds false = retry rounds reconnect_base_backoff

    abbrev heal_if : ℕ → Bool → Prog D Bool
    heal_if rounds false = ret true
    heal_if rounds true =
        bind (perform (members client_subscriptions)) λ rooms. heal rounds (is_empty rooms)

    -- One round of the outer loop, with at most so many attempts to reconnect.
    unfoldable pub supervise : ℕ → Prog D Bool
    supervise rounds =
        bind (perform (sleep 1000))
          λ _. bind (perform load_socket) λ socket. heal_if rounds (needs_reconnect socket)
