-- ===== src/Client/Backstop/Polls.antt =====
-- How often the poll task of src/client.rs asks for the messages of its box.
use rust_messagebox_client.Prelude.{
  ℕ, zero, suc, ◌+◌, ◌*◌, ◌≤◌, ◌<◌, String, ◌<>◌, ◌≡◌, refl, Bool, true, false, List, ◌=?◌, =?_refl,
  if◌then◌else◌, [], ◌∷◌, arith,
}
use rust_messagebox_client.Error.{ok}
use rust_messagebox_client.Deps.{Deps}
use rust_messagebox_client.Io.{
  Call, Reply, client_rooms, is_member, load_activity, fetch, Prog, ret, call, bind,
}
use rust_messagebox_client.Io.Runs.{Event, AllRuns, AllRuns-bind, AllRuns-weaken}
use rust_messagebox_client.Session.{Client}
use rust_messagebox_client.Client.Http.{post_json, poll_list_messages}
use rust_messagebox_client.Client.Poll.{PollState, poll_should_run, refresh}
use rust_messagebox_client.Client.Backstop.{poll_once, poll_if, poll_rounds, poll_task}

module _ (D : Deps) (client : Client) where
  -- The number of requests to the client's own host for a page of messages.
  abbrev pub requests : List (Event D) → ℕ
  requests [] = 0
  requests ((fetch url _ _ _, r) ∷ log) =
      (if url =? client.host <> "/listMessages" then 1 else 0) + requests log
  requests (_ ∷ log) = requests log

  requests-call :
      (c : Call D) (r : Reply D c) (log : List (Event D)) → requests log ≤ requests ((c, r) ∷ log)
  requests-call (fetch _ _ _ _) r log = omega arith
  requests-call _ r log = omega arith

  requests-grow_from {ℓ} :
      {A : Type ℓ} (m : Prog D A) (least : ℕ) (log : List (Event D))
      → least ≤ requests log
      → AllRuns (λ log' _. least ≤ requests log') log m
  requests-grow_from (ret a) least log h = h
  requests-grow_from (call c k) least log h = λ r.
      requests-grow_from (k r) least ((c, r) ∷ log)
        (let more = requests-call c r log in omega (arith, more, h))

module _ (D : Deps) (client : Client) (identity_key message_box room_id : String) (bytes : List ℕ)
    (encoded : D.list_messages_params message_box ≡ ok bytes) where
  poll_once-Requests :
      (log : List (Event D))
      → AllRuns
          (λ log' _. requests D client log < requests D client log')
          log
          (poll_once D client identity_key message_box room_id)
  unfolding poll_list_messages post_json bind
  poll_once-Requests log = rw encoded (λ r.
      requests-grow_from D client _ (suc (requests D client log)) _ (rw =?_refl (omega arith)))

  -- The last thing that the task did was to find the room left.
  abbrev pub FoundLeft : List (Event D) → Type 0
  FoundLeft log =
      (before : List (Event D)) × (log ≡ (is_member client_rooms room_id, false) ∷ before)

  -- What some rounds from a state of the task's variables lead to.
  abbrev Rounds : ℕ → PollState → List (Event D) → List (Event D) → Bool → Type 0
  Rounds n s log log' true = FoundLeft log'
  Rounds n s log log' false =
      n + 8 * requests D client log + s.skipped ≤ 7 + 8 * requests D client log'

  after_round :
      (n : ℕ) (s t : PollState) (start log log' : List (Event D)) (ended : Bool)
      → 1 + 8 * requests D client start + s.skipped ≤ 8 * requests D client log + t.skipped
      → Rounds n t log log' ended
      → Rounds (suc n) s start log' ended
  after_round n s t start log log' true less seen = seen
  after_round n s t start log log' false less h = omega (arith, less, h)

  -- What the decision of a round does to the count of the rounds that stood down.
  abbrev Judged : PollState → PollState → Bool → Type 0
  Judged s t true = t.skipped ≡ 0
  Judged s t false = (s.skipped < 7) × (t.skipped ≡ s.skipped + 1)

  poll_should_run-Judged :
      (current : ℕ) (s : PollState)
      → Judged s (poll_should_run current s).0 (poll_should_run current s).1
  unfolding poll_should_run
  poll_should_run-Judged current s = ground arith

  poll_if-Rounds :
      (n : ℕ) (s t : PollState) (run : Bool) (start log : List (Event D))
      (rest : PollState → Prog D Bool)
      → s.skipped ≤ 7
      → requests D client log ≡ requests D client start
      → Judged s t run
      → ((t : PollState) (log' : List (Event D))
          → t.skipped ≤ 7
          → AllRuns (Rounds n t log') log' (rest t))
      → AllRuns
          (Rounds (suc n) s start)
          log
          (poll_if D client identity_key message_box room_id t rest run)
  unfolding bind refresh
  poll_if-Rounds n s t false start log rest small same (few, more) h =
      AllRuns-weaken (Rounds n t log) (Rounds (suc n) s start) log (rest t)
        (h t log (omega (arith, few, more)))
        (λ log' ended r. after_round n s t start log log' ended (omega (arith, same, more)) r)
  poll_if-Rounds n s t true start log rest small same none_skipped h =
      AllRuns-bind (λ log' _. requests D client log < requests D client log')
        (Rounds (suc n) s start) log (poll_once D client identity_key message_box room_id) _
        (poll_once-Requests log)
        (λ log1 u asked activity.
          let here : List (Event D) = (load_activity room_id, activity) ∷ log1 in
          AllRuns-weaken (Rounds n (refresh activity t) here) (Rounds (suc n) s start) here
            (rest (refresh activity t)) (h (refresh activity t) here (omega (arith, none_skipped)))
            (λ log' ended r.
              after_round n s (refresh activity t) start here log' ended
                (omega (arith, same, asked, small)) r))

  poll_rounds-Rounds :
      (n : ℕ) (s : PollState) (log : List (Event D))
      → s.skipped ≤ 7
      → AllRuns (Rounds n s log) log (poll_rounds D client identity_key message_box room_id n s)
  unfolding poll_rounds bind
  poll_rounds-Rounds zero s log small = omega (arith, small)
  poll_rounds-Rounds (suc n) s log small = λ slept. elim [
    | false ↦ (_, refl)
    | true ↦ λ activity.
        poll_if-Rounds n s (poll_should_run activity s).0 (poll_should_run activity s).1 log _
          (poll_rounds D client identity_key message_box room_id n) small refl
          (poll_should_run-Judged activity s) (λ t log' small'. poll_rounds-Rounds n t log' small')
  ]

  -- What is known after so many rounds of the task.
  abbrev pub Polls : ℕ → List (Event D) → List (Event D) → Bool → Type 0
  Polls rounds log log' true = FoundLeft log'
  Polls rounds log log' false = rounds + 8 * requests D client log ≤ 7 + 8 * requests D client log'

  Rounds-Polls :
      (n : ℕ) (s : PollState) (log log' : List (Event D)) (ended : Bool)
      → Rounds n s log log' ended
      → Polls n log log' ended
  Rounds-Polls n s log log' true seen = seen
  Rounds-Polls n s log log' false h = omega (arith, h)

  -- When the parameters of the request can be encoded, in every run of the first rounds of the poll
  -- task, whatever the socket delivers and whatever the relay replies: if the task has ended, the
  -- last thing that it did was to find the room left; else it has made at least one request to its host's
  -- `/listMessages` in every eight rounds.
  pub poll_task-Polls :
      (rounds : ℕ) (log : List (Event D))
      → AllRuns (Polls rounds log) log (poll_task D client identity_key message_box room_id rounds)
  unfolding poll_task bind
  poll_task-Polls rounds log = λ activity.
      let s : PollState = record { last_activity = activity; skipped = 0 } in
      let here : List (Event D) = (load_activity room_id, activity) ∷ log in
      AllRuns-weaken (Rounds rounds s here) (Polls rounds log) here
        (poll_rounds D client identity_key message_box room_id rounds s)
        (poll_rounds-Rounds rounds s here (omega arith))
        (λ log' ended h. Rounds-Polls rounds s here log' ended h)
