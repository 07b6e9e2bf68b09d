-- ===== src/Tests/Overlay.antt =====
-- Hosts on the overlay and events of the socket at concrete data.
use rust_messagebox_client.Prelude.{◌≡◌, refl, false, none, some, List, [], ◌∷◌}
use rust_messagebox_client.Error.{ok}
use rust_messagebox_client.Io.{Call, Reply, create_action, lookup, bind}
use rust_messagebox_client.Io.Runs.{Event, AllRuns, run}
use rust_messagebox_client.Types.{AdvertisementToken, ServerPeerMessage}
use rust_messagebox_client.Deps.{Deps}
use rust_messagebox_client.Session.{Client, get_identity_key}
use rust_messagebox_client.HostResolution.{
  advertisement, advertisements, query_advertisements_inner, query_advertisements,
  resolve_host_for_recipient, anoint_host, build_advertisement_unlock_script,
  revoke_host_advertisement,
}
use rust_messagebox_client.HostResolution.Resolved.{Resolved, resolve_host_for_recipient-Resolved}
use rust_messagebox_client.Websocket.Dispatch.{dispatch}
use rust_messagebox_client.Websocket.Dispatch.Routed.{Routed, dispatch-Routed}
use rust_messagebox_client.Tests.Toy.{toy, usual, alice, paid}

abbrev client : Client
client = record { host = "h"; originator = none }

-- The overlay knows two outputs for the recipient, of which only the second has a script.
overlay_knows : List (Event toy) → (c : Call toy) → Reply toy c
overlay_knows log (lookup _ _) =
    ok (record { beef = []; output_index = 7 } ∷ record { beef = []; output_index = 0 } ∷ [])
overlay_knows log c = usual c

resolved : (run overlay_knows [] (resolve_host_for_recipient toy client alice)).0 ≡ ok "hello"
unfolding overlay_knows run resolve_host_for_recipient query_advertisements
    query_advertisements_inner advertisements advertisement bind
resolved = refl

resolve_host_for_recipient-Resolved_example :
    AllRuns (Resolved toy client alice) [] (resolve_host_for_recipient toy client alice)
resolve_host_for_recipient-Resolved_example =
    resolve_host_for_recipient-Resolved toy client alice []

announced : (run (λ log c. usual c) [] (anoint_host toy client "h")).0 ≡ ok "00"
unfolding run anoint_host get_identity_key bind
announced = refl

abbrev token : AdvertisementToken
token = record {
  host = "h";
  txid = "00";
  output_index = 0;
  locking_script = "script";
  beef = 7 ∷ [];
}

-- A wallet that leaves the action's input to be signed.
leaves_input : List (Event toy) → (c : Call toy) → Reply toy c
leaves_input log (create_action _ _) =
    ok (record { tx = none; signable_transaction = some (1 ∷ [], 2 ∷ []) })
leaves_input log c = usual c

revoked : (run leaves_input [] (revoke_host_advertisement toy client token)).0 ≡ ok "00"
unfolding leaves_input run revoke_host_advertisement build_advertisement_unlock_script bind
revoked = refl

abbrev hello : ServerPeerMessage
hello = record {
  message_id = "m1";
  body = "hi";
  sender = alice;
  created_at = "";
  updated_at = "";
  acknowledged = none;
  authenticated_decrypt = false;
}

-- The event is a message of the room.
abbrev live_toy : Deps
live_toy = record toy { server_peer_message = λ v. ok hello }

dispatch-Routed_example :
    AllRuns
      (Routed live_toy none "sendMessage-room" paid [])
      []
      (dispatch live_toy none "sendMessage-room" paid)
dispatch-Routed_example = dispatch-Routed live_toy none "sendMessage-room" paid []
