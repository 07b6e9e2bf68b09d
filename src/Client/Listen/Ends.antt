-- ===== src/Client/Listen/Ends.antt =====
-- When the loop of the reconnect supervisor in src/client.rs comes to an end.
use rust_messagebox_client.Prelude.{
  ℕ, zero, suc, ◌+◌, ◌≤◌, String, ◌≡◌, refl, Bool, true, false, List, [], length, arith, ◌<◌, leb,
  is_empty, inl, inr, Bool-cases,
}
use rust_messagebox_client.Error.{ok, err, Fallible}
use rust_messagebox_client.Deps.{Deps}
use rust_messagebox_client.Io.{Call, Reply, Prog, ret, bind, socket_connect}
use rust_messagebox_client.Io.Runs.{
  Event, AllRuns-bind, AllRuns-always, run, RunsWith, RunsWith-run, AllRuns-RunsWith,
}
use rust_messagebox_client.Io.Avoids.{sleeps}
use rust_messagebox_client.Websocket.Socket as Socket
use rust_messagebox_client.Client.Listen.{reconnect_base_backoff, next_backoff, attempt, retry}

module _ (D : Deps) (ws_url identity_key : String)
    (answer : List (Event D) → (c : Call D) → Reply D c) (n : ℕ)
    (up : (log : List (Event D))
      → n ≤ length (sleeps log)
      → answer log (socket_connect ws_url identity_key) ≡ ok tt) where
  down-few :
      (log : List (Event D)) (e : String)
      → answer log (socket_connect ws_url identity_key) ≡ err e
      → length (sleeps log) < n
  down-few log e down = elim (Bool-cases (leb n (length (sleeps log)))) [
    | inl b ↦ let works = up log (ground arith) in cc
    | inr b ↦ ground arith
  ]

  abbrev Ok {ℓ} : {A : Type ℓ} → List (Event D) → Fallible A → Type 0
  Ok log (ok _) = Unit
  Ok log (err _) = ⊥

  abbrev Ends : List (Event D) → Bool → Type 0
  Ends log ended = ended ≡ true

  attempt-Ends :
      (log : List (Event D)) (backoff : ℕ) (rest : Prog D Bool) (none_left : Bool)
      → ((log' : List (Event D))
          → length (sleeps log') ≡ length (sleeps log) + 1
          → length (sleeps log') ≤ n
          → RunsWith answer Ends log' rest)
      → RunsWith answer Ends log (attempt D ws_url identity_key backoff rest none_left)
  unfolding bind Socket.reconnect_ws Socket.connect
  attempt-Ends log backoff rest true h = refl
  attempt-Ends log backoff rest false h = elim [
    | ok u ↦ λ e rooms e'. AllRuns-RunsWith answer Ends _ _ (
        AllRuns-bind Ok Ends _ _ _
          (AllRuns-bind Ok Ok _ _ _
            (AllRuns-bind (λ _ _. Unit {0}) Ok _ (Socket.replay D rooms) _
              (AllRuns-always (λ _ _. Unit {0}) _ _ (λ l u. tt)) (λ l u q. tt))
            (λ l. elim [ ok u ↦ λ q s. tt | err e ↦ λ q. absurd q ]))
          (λ l. elim [ ok u ↦ λ q. refl | err e ↦ λ q. absurd q ]))
    | err e ↦
        λ down slept e'. h _ (omega arith) (let few = down-few log e down in omega (arith, few))
  ]

  -- With as many rounds left as failures may still come, and one more.
  retry-Ends :
      (left backoff : ℕ) (log : List (Event D))
      → length (sleeps log) + left ≡ n
      → RunsWith answer Ends log (retry D ws_url identity_key (suc left) backoff)
  unfolding retry bind
  retry-Ends zero backoff log h = λ rooms e.
      attempt-Ends _ backoff (ret false) (is_empty rooms)
        (λ log' one few. absurd (omega (arith, h, one, few)))
  retry-Ends (suc left) backoff log h = λ rooms e.
      attempt-Ends _ backoff (retry D ws_url identity_key (suc left) (next_backoff backoff))
        (is_empty rooms)
        (λ log' one few. retry-Ends left (next_backoff backoff) log' (omega (arith, h, one)))

  -- When the connection is up again after `n` waits at the latest, the reconnect loop ends within
  -- `n + 1` rounds, whatever else the calls reply.
  pub retry-ends :
      (run answer [] (retry D ws_url identity_key (suc n) reconnect_base_backoff)).0 ≡ true
  retry-ends = RunsWith-run answer Ends [] _ (retry-Ends n reconnect_base_backoff [] (omega arith))
