-- ===== src/Client/Http/Got.antt =====
-- What a GET that succeeds shows.
use mathlib.Core.List.{Memᴰ}
use rust_messagebox_client.Prelude.{String, ◌≡◌, refl, false, none, List, [], Bool-cases, inl, inr}
use rust_messagebox_client.Error.{ok, err, Fallible}
use rust_messagebox_client.Deps.{Deps}
use rust_messagebox_client.Io.{Response, fetch, bind}
use rust_messagebox_client.Io.Runs.{Event, Extends, AllRuns}
use rust_messagebox_client.Client.Http.{is_failure, get_json}

module _ {D : Deps} (url : String) where
  -- The relay answered the GET with a status from 200 to 299.
  abbrev pub Got : List (Event D) → Response → Type 0
  Got log response =
      Memᴰ (fetch url "GET" none [], ok response) log × (is_failure response.status ≡ false)

  abbrev pub GotOk : List (Event D) → List (Event D) → Fallible Response → Type 0
  GotOk log log' (ok response) = Extends log log' × Got log' response
  GotOk log log' (err _) = Extends log log'

  pub get_json-Got : (log : List (Event D)) → AllRuns (GotOk log) log (get_json D url)
  unfolding get_json bind
  get_json-Got log (err e) = λ e m. Memᴰ.tail m
  get_json-Got log (ok response) = elim (Bool-cases (is_failure response.status)) [
    | inl bad ↦ rw bad (λ e m. Memᴰ.tail m)
    | inr good ↦ rw good ((λ e m. Memᴰ.tail m), (Memᴰ.head refl, good))
  ]
