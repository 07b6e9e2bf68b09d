-- ===== src/Client/Poll.antt =====
-- `record_ws_activity` and `poll_should_run` of src/client.rs: when the HTTP poll stands down.
use rust_messagebox_client.Prelude.{
  ℕ, zero, suc, ◌+◌, ◌-◌, ◌%◌, ◌^◌, ◌≤◌, ◌<◌, ◌≡◌, ◌≢◌, ◌↔◌, ◌⊎◌, Bool, true, false, not, ◌&&◌,
  List, [], ◌∷◌, arith, length, any, ltb, ◌==◌, if◌then◌else◌,
}

abbrev pub max_poll_skips : ℕ
max_poll_skips = 7

-- `activity.fetch_add(1, …)` on an `AtomicU64`, which wraps.
unfoldable pub record_ws_activity : ℕ → ℕ
record_ws_activity activity = (activity + 1) % 2 ^ 64

-- The two variables that the poll task keeps.
pub record PollState : Type 0 where
  pub last_activity : ℕ
  pub skipped : ℕ

unfoldable pub poll_should_run : ℕ → PollState → PollState × Bool
poll_should_run current s =
    if not (current == s.last_activity) && ltb s.skipped max_poll_skips
    then (record { last_activity = current; skipped = s.skipped + 1 }, false)
    else (record { last_activity = current; skipped = 0 }, true)

-- `last_activity = poll_ws_activity.load(…)` at the end of a round that polled.
unfoldable pub refresh : ℕ → PollState → PollState
refresh activity s = record s { last_activity = activity }

-- The decisions of successive rounds. A round reads the counter, decides, and if it polled reads
-- the counter again.
unfoldable pub rounds : PollState → List (ℕ × ℕ) → List Bool
rounds s [] = []
rounds s ((current, after) ∷ rest) =
    let (s', run) = poll_should_run current s in
    run ∷ rounds (if run then refresh after s' else s') rest

poll_should_run-false :
    (current : ℕ) (s : PollState)
    → (poll_should_run current s).1 ≡ false
    → (s.skipped < max_poll_skips)
      × ((poll_should_run current s).0.skipped ≡ s.skipped + 1)
      × (current ≢ s.last_activity)
unfolding poll_should_run
poll_should_run-false current s h = ground arith

-- A round polls exactly when the counter has not moved since it was last read, or seven rounds in a
-- row have stood down.
pub poll_should_run_iff :
    (current : ℕ) (s : PollState)
    → ((poll_should_run current s).1 ≡ true)
      ↔ ((current ≡ s.last_activity) ⊎ (max_poll_skips ≤ s.skipped))
unfolding poll_should_run
poll_should_run_iff current s = ground arith

rounds_run :
    (k : ℕ) (s : PollState) (readings : List (ℕ × ℕ))
    → max_poll_skips - s.skipped ≤ k
    → k < length readings
    → any (λ b. b) (rounds s readings) ≡ true
unfolding rounds
rounds_run k s [] h l = absurd (omega arith)
rounds_run zero s ((current, after) ∷ rest) h l = ground (arith, poll_should_run-false current s)
rounds_run (suc k) s ((current, after) ∷ rest) h l =
    ground (arith, poll_should_run-false current s, rounds_run k (poll_should_run current s).0 rest)

-- Among any eight rounds in a row, from any state and whatever the WebSocket delivers, one polls.
rounds_catch_up :
    (s : PollState) (readings : List (ℕ × ℕ))
    → max_poll_skips < length readings
    → any (λ b. b) (rounds s readings) ≡ true
rounds_catch_up s readings h = rounds_run max_poll_skips s readings (omega arith) h
