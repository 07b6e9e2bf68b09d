-- ===== src/Client/Backstop.antt =====
-- The poll task that `listen_for_live_messages_typed` of src/client.rs spawns.
pub mod Polls
use rust_messagebox_client.Prelude.{ℕ, zero, suc, String, Bool, true, false, List, [], ◌∷◌}
use rust_messagebox_client.Error.{ok, err, Fallible}
use rust_messagebox_client.Types.{AuthenticatedPeerMessage}
use rust_messagebox_client.Deps.{Deps}
use rust_messagebox_client.Io.{
  client_rooms, is_member, sleep, load_activity, poll_callback, Prog, ret, bind, perform,
}
use rust_messagebox_client.Session.{Client}
use rust_messagebox_client.Client.Http.{poll_list_messages}
use rust_messagebox_client.Client.Poll.{PollState, poll_should_run, refresh}

module _ (D : Deps) (client : Client) (identity_key message_box room_id : String) where
  -- `for msg in messages { poll_callback(msg); }`
  unfoldable pub hand_all : List AuthenticatedPeerMessage → Prog D (Unit {0})
  hand_all [] = ret tt
  hand_all (msg ∷ messages) = bind (perform (poll_callback room_id msg)) λ _. hand_all messages

  -- An error is only logged.
  abbrev pub handed : Fallible (List AuthenticatedPeerMessage) → Prog D (Unit {0})
  handed (ok messages) = hand_all messages
  handed (err _) = ret tt

  abbrev pub poll_once : Prog D (Unit {0})
  poll_once =
      bind (poll_list_messages D identity_key message_box client.originator client.host) handed

  -- The rest of a round, and the rounds after it.
  abbrev pub poll_if : PollState → (PollState → Prog D Bool) → Bool → Prog D Bool
  poll_if s rest false = rest s
  poll_if s rest true =
      bind poll_once
        λ _. bind (perform (load_activity room_id)) λ activity. rest (refresh activity s)

  abbrev pub while_joined : PollState → (PollState → Prog D Bool) → Bool → Prog D Bool
  while_joined s rest false = ret true
  while_joined s rest true =
      bind (perform (load_activity room_id))
        λ activity. let (s', run) = poll_should_run activity s in poll_if s' rest run

  -- The first rounds of the loop: whether it has ended in them.
  unfoldable pub poll_rounds : ℕ → PollState → Prog D Bool
  poll_rounds zero s = ret false
  poll_rounds (suc rounds) s =
      bind (perform (sleep 2000))
        λ _. bind (perform (is_member client_rooms room_id)) (while_joined s (poll_rounds rounds))

  -- The task, for so many rounds.
  unfoldable pub poll_task : ℕ → Prog D Bool
  poll_task rounds =
      bind (perform (load_activity room_id))
        λ activity. poll_rounds rounds (record { last_activity = activity; skipped = 0 })
