-- ===== src/Client/Listen/Backoff.antt =====
-- The backoffs between the attempts of the reconnect supervisor in src/client.rs.
use rust_messagebox_client.Prelude.{
  ℕ, zero, suc, ◌+◌, ◌*◌, ◌≤◌, String, ◌≡◌, Bool, false, List, [], ◌∷◌, ◌++◌, leb, if◌then◌else◌,
}
use rust_messagebox_client.Deps.{Deps}
use rust_messagebox_client.Io.Runs.{Event}
use rust_messagebox_client.Io.Avoids.{sleeps}
use rust_messagebox_client.Websocket.Socket as Socket
use rust_messagebox_client.Client.Listen.{reconnect_base_backoff, reconnect_max_backoff}

-- The wait after a number of failures: the base doubled so often, at most ten seconds.
abbrev pub doubled : ℕ → ℕ
doubled zero = reconnect_base_backoff
doubled (suc k) = doubled k * 2

abbrev pub delay : ℕ → ℕ
delay k = if leb (doubled k) reconnect_max_backoff then doubled k else reconnect_max_backoff

-- The first waits, the last of them first.
abbrev pub delays : ℕ → List ℕ
delays zero = []
delays (suc k) = delay k ∷ delays k

-- The next waits after some failures, the last of them first.
abbrev delays_from : ℕ → ℕ → List ℕ
delays_from zero j = []
delays_from (suc k) j = delay (k + j) ∷ delays_from k j

module _ (D : Deps) (ws_url identity_key : String) where
  -- After some rounds, with `j` failures before them.
  abbrev Waited : ℕ → ℕ → List (Event D) → List (Event D) → Bool → Type 0
  Waited rounds j log log' ended =
      (k : ℕ) × (k ≤ rounds)
      × (ended ≡ false → k ≡ rounds)
      × (sleeps log' ≡ delays_from k j ++ sleeps log)

  -- What the backoffs of some rounds of the loop are.
  abbrev pub Spaced : ℕ → List (Event D) → List (Event D) → Bool → Type 0
  Spaced rounds log log' ended =
      (k : ℕ) × (k ≤ rounds) × (ended ≡ false → k ≡ rounds) × (sleeps log' ≡ delays k ++ sleeps log)
