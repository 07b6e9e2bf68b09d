-- ===== src/Websocket/Dispatch/Routed.antt =====
-- What one event of the socket leads to, in `connect` of src/websocket.rs.
use rust_messagebox_client.Prelude.{
  String, ◌≡◌, refl, Bool, true, false, Option, none, some, List, ◌∷◌, ◌⊎◌, inl, inr,
}
use rust_messagebox_client.Prelude.Text.{strip_prefix}
use rust_messagebox_client.Error.{Result, ok, err}
use rust_messagebox_client.Types.{AuthenticatedPeerMessage, ServerPeerMessage}
use rust_messagebox_client.Deps.{Deps}
use rust_messagebox_client.Io.{socket_subscriptions, is_member, resolve_waiter, bind}
use rust_messagebox_client.Io.Runs.{Event, AllRuns, AllRuns-bind}
use rust_messagebox_client.Encryption.{
  DecryptOutcome, decrypted, plaintext, into_body, is_authenticated, try_decrypt_message_typed,
}
use rust_messagebox_client.Encryption.Provenance.{
  Opened, Claims, innermost_body, try_decrypt_message_typed-Claims,
}
use rust_messagebox_client.Websocket.Dispatch.{
  live_message, hand_over, on_message, on_acknowledgement, succeeded, dispatch_named, dispatch,
}

module _ (D : Deps) (originator : Option String) where
  open D use {Value, server_peer_message}

  -- The body is what the wallet decrypted for the sender, or what was sent.
  abbrev pub Body :
      ServerPeerMessage → List (Event D) → List (Event D) → AuthenticatedPeerMessage → Type 0
  Body sent before log m =
      ((m.authenticated_decrypt ≡ true)
        × Opened D sent.sender originator (innermost_body D sent.sender originator sent.body) before
            log m.body)
      ⊎ ((m.authenticated_decrypt ≡ false)
          × (m.body ≡ innermost_body D sent.sender originator sent.body))

  -- The message of an event of a room that is subscribed to.
  pub record HandedOver (event_name : String) (event : Value) (log log' : List (Event D))
      (m : AuthenticatedPeerMessage) : Type 0 where
    pub room_id : String
    pub sent : ServerPeerMessage
    pub named : strip_prefix "sendMessage-" event_name ≡ some room_id
    pub parsed : server_peer_message event ≡ ok sent
    pub message_id : m.message_id ≡ sent.message_id
    pub sender : m.sender ≡ sent.sender
    pub body : Body sent ((is_member socket_subscriptions event_name, true) ∷ log) log' m

  -- The oldest waiter of an acknowledgement's event is told, once, whether the send succeeded.
  abbrev pub Acknowledged : String → Value → List (Event D) → List (Event D) → Type 0
  Acknowledged event_name event log log' =
      (room_id : String) × (strip_prefix "sendMessage-" event_name ≡ none)
      × (strip_prefix "sendMessageAck-" event_name ≡ some room_id)
      × (log' ≡ (resolve_waiter event_name (succeeded D originator event), tt) ∷ log)

  abbrev pub Routed :
      String → Value → List (Event D) → List (Event D) → Option AuthenticatedPeerMessage → Type 0
  Routed event_name event log log' (some m) = HandedOver event_name event log log' m
  Routed event_name event log log' none =
      (log' ≡ log)
      ⊎ (log' ≡ (is_member socket_subscriptions event_name, false) ∷ log)
      ⊎ Acknowledged event_name event log log'

  module _ (event_name : String) (event : Value) where
    opened-Body :
        (room_id : String) (sent : ServerPeerMessage) (outcome : DecryptOutcome)
        (before log : List (Event D))
        → Claims D sent.sender originator
            (innermost_body D sent.sender originator sent.body)
            before
            log
            outcome
        → Body sent before log (live_message D originator room_id sent outcome)
    unfolding into_body is_authenticated
    opened-Body room_id sent (decrypted body) before log opened = inl (refl, opened)
    opened-Body room_id sent (plaintext body) before log same = inr (refl, same)

    hand_over-Routed :
        (log : List (Event D)) (room_id : String) (sent : ServerPeerMessage)
        → strip_prefix "sendMessage-" event_name ≡ some room_id
        → server_peer_message event ≡ ok sent
        → (subscribed : Bool)
        → AllRuns
            (Routed event_name event log)
            ((is_member socket_subscriptions event_name, subscribed) ∷ log)
            (hand_over D originator room_id sent subscribed)
    hand_over-Routed log room_id sent named parsed false = inr (inl refl)
    hand_over-Routed log room_id sent named parsed true =
        let here : List (Event D) = (is_member socket_subscriptions event_name, true) ∷ log in
        AllRuns-bind
          (Claims D sent.sender originator (innermost_body D sent.sender originator sent.body) here)
          (Routed event_name event log) here
          (try_decrypt_message_typed D sent.body sent.sender originator) _
          (try_decrypt_message_typed-Claims D sent.sender originator sent.body here)
          (λ log' outcome h. record {
            room_id = room_id;
            sent = sent;
            named = named;
            parsed = parsed;
            message_id = refl;
            sender = refl;
            body = opened-Body room_id sent outcome here log' h;
          })

    on_message-Routed :
        (log : List (Event D)) (room_id : String)
        → strip_prefix "sendMessage-" event_name ≡ some room_id
        → (r : Result ServerPeerMessage String) → server_peer_message event ≡ r
        → AllRuns (Routed event_name event log) log (on_message D originator event_name room_id r)
    unfolding bind
    on_message-Routed log room_id named (err e) parsed = inl refl
    on_message-Routed log room_id named (ok sent) parsed =
        λ subscribed. hand_over-Routed log room_id sent named parsed subscribed

    on_acknowledgement-Routed :
        (log : List (Event D))
        → strip_prefix "sendMessage-" event_name ≡ none
        → (room : Option String) → strip_prefix "sendMessageAck-" event_name ≡ room
        → AllRuns
            (Routed event_name event log)
            log
            (on_acknowledgement D originator event_name event room)
    unfolding bind
    on_acknowledgement-Routed log other none h = inl refl
    on_acknowledgement-Routed log other (some room) h = λ u. inr (inr (room, other, h, refl))

    dispatch_named-Routed :
        (log : List (Event D)) (room : Option String)
        → strip_prefix "sendMessage-" event_name ≡ room
        → AllRuns
            (Routed event_name event log)
            log
            (dispatch_named D originator event_name event room)
    dispatch_named-Routed log (some room) h =
        on_message-Routed log room h (server_peer_message event) refl
    dispatch_named-Routed log none h =
        on_acknowledgement-Routed log h (strip_prefix "sendMessageAck-" event_name) refl

    -- In every run of the dispatcher on an event: a callback gets a message only for an event
    -- `sendMessage-<room>` that parses and has a callback; the message has the id and the sender of
    -- the event's, and it counts as authenticated only when its body is what the wallet decrypted
    -- under that sender's key, else its body is the innermost text. Without a message, the run did
    -- nothing, or found no callback, or resolved one waiter of an event `sendMessageAck-<room>` with
    -- whether its status is "success".
    pub dispatch-Routed :
        (log : List (Event D))
        → AllRuns (Routed event_name event log) log (dispatch D originator event_name event)
    unfolding dispatch
    dispatch-Routed log = dispatch_named-Routed log (strip_prefix "sendMessage-" event_name) refl
