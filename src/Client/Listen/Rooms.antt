-- ===== src/Client/Listen/Rooms.antt =====
-- What leaving a room and reconnecting leave behind, in src/client.rs.
use mathlib.Core.List.{Memᴰ}
use rust_messagebox_client.Prelude.{String, ◌⊎◌, List}
use rust_messagebox_client.Error.{ok, err, Fallible}
use rust_messagebox_client.Deps.{Deps}
use rust_messagebox_client.Io.{client_rooms, client_subscriptions, remove_member}
use rust_messagebox_client.Io.Runs.{Event}
use rust_messagebox_client.Session.{Client}
use rust_messagebox_client.Session.Own.{KeyFails}
use rust_messagebox_client.Client.Live.{room_of}
use rust_messagebox_client.Websocket.Socket as Socket

module _ (D : Deps) (client : Client) (message_box : String) where
  -- The client has forgotten the room of its key.
  abbrev pub Forgotten : List (Event D) → Type 0
  Forgotten log =
      (key : String) × Memᴰ (remove_member client_rooms (room_of key message_box), tt) log
      × Memᴰ (remove_member client_subscriptions (room_of key message_box), tt) log

  abbrev pub TornDown : List (Event D) → Fallible (Unit {0}) → Type 0
  TornDown log (ok _) = Forgotten log
  TornDown log (err e) = Forgotten log ⊎ KeyFails D client log e
