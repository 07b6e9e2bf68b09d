-- ===== src/Tests/Loops.antt =====
-- The loops of the tasks that a client spawns, at concrete data.
use rust_messagebox_client.Prelude.{
  ◌≤◌, ◌≡◌, refl, true, none, List, [], ◌∷◌, length, leb, arith, string_dec, if◌then◌else◌,
}
use rust_messagebox_client.Error.{ok, err}
use rust_messagebox_client.Io.{Call, Reply, members, socket_connect, bind}
use rust_messagebox_client.Io.Runs.{Event, AllRuns, run}
use rust_messagebox_client.Io.Avoids.{sleeps}
use rust_messagebox_client.Session.{Client}
use rust_messagebox_client.Client.Http.{poll_list_messages, post_json}
use rust_messagebox_client.Client.Poll.{poll_should_run, refresh}
use rust_messagebox_client.Client.Backstop.{poll_task, poll_rounds}
use rust_messagebox_client.Client.Backstop.Polls.{Polls, poll_task-Polls, requests}
use rust_messagebox_client.Client.Listen.{retry, reconnect_base_backoff}
use rust_messagebox_client.Client.Listen.Ends.{retry-ends}
use rust_messagebox_client.Tests.Toy.{toy, usual, alice}

abbrev client : Client
client = record { host = "h"; originator = none }

-- An idle mailbox is polled in each round.
polled_rounds :
    requests toy client (run (λ log c. usual c) [] (poll_task toy client alice "inbox" "room" 3)).1
    ≡ 3
unfolding run poll_task poll_rounds poll_should_run poll_list_messages post_json refresh bind
    string_dec
polled_rounds = refl

poll_task-Polls_example :
    AllRuns
      (Polls toy client alice "inbox" "room" [] refl 8 [])
      []
      (poll_task toy client alice "inbox" "room" 8)
poll_task-Polls_example = poll_task-Polls toy client alice "inbox" "room" [] refl 8 []

-- A connection that comes up after two waits.
recovers : List (Event toy) → (c : Call toy) → Reply toy c
recovers log (members _) = "room" ∷ []
recovers log (socket_connect _ _) = if leb 2 (length (sleeps log)) then ok tt else err "down"
recovers log c = usual c

recovers-up :
    (log : List (Event toy))
    → 2 ≤ length (sleeps log)
    → recovers log (socket_connect "h" alice) ≡ ok tt
unfolding recovers
recovers-up log h = ground arith

retry-ends_example : (run recovers [] (retry toy "h" alice 3 reconnect_base_backoff)).0 ≡ true
retry-ends_example = retry-ends toy "h" alice recovers 2 recovers-up
