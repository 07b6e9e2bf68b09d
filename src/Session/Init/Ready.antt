-- ===== src/Session/Init/Ready.antt =====
-- When the initialization of src/client.rs fails.
use mathlib.Core.List.{Memᴰ}
use rust_messagebox_client.Prelude.{
  String, refl, ◌⊎◌, inl, inr, Bool, true, false, Option, none, some, List, ◌∷◌,
}
use rust_messagebox_client.Error.{ok, err, Fallible}
use rust_messagebox_client.Deps.{Deps}
use rust_messagebox_client.Io.{
  load_initialized, store_initialized, Io, ret, bind, perform, of_prog, ◌>>◌,
}
use rust_messagebox_client.Io.Runs.{Event, AllRuns, AllRuns-always, AllRuns-bind, AllRuns-then}
use rust_messagebox_client.Session.{Client}
use rust_messagebox_client.Session.Own.{KeyFails, KeyRead, get_identity_key-KeyRead}
use rust_messagebox_client.HostResolution.{
  query_advertisements, query_advertisements_inner, anoint_host,
}
use rust_messagebox_client.Session.Init.{
  try_anoint, anoint_unless, unless_initialized, get_or_try_init, first_use, first_use_at,
  advertised, assert_initialized, init,
}

module _ (D : Deps) (client : Client) where
  abbrev IsOk {ℓ} : {A : Type ℓ} → List (Event D) → Fallible A → Type 0
  IsOk log (ok _) = Unit
  IsOk log (err _) = ⊥

  abbrev pub FirstOk : List (Event D) → Fallible (Unit {0}) → Type 0
  FirstOk log (ok _) = Unit
  FirstOk log (err e) = KeyFails D client log e

  -- The mark of the first use was read or is now set, or the wallet gave no key.
  abbrev pub Ready : List (Event D) → Fallible (Unit {0}) → Type 0
  Ready log (ok _) = Memᴰ (load_initialized, true) log ⊎ Memᴰ (store_initialized, tt) log
  Ready log (err e) = KeyFails D client log e

  try_anoint-FirstOk :
      (host : String) (log : List (Event D)) → AllRuns FirstOk log (try_anoint D client host)
  try_anoint-FirstOk host log =
      AllRuns-bind (λ _ _. Unit {0}) FirstOk log (anoint_host D client host) _
        (AllRuns-always (λ _ _. Unit {0}) log (anoint_host D client host) (λ l h. tt))
        (λ log' r u. tt)

  anoint_unless-FirstOk :
      (found : Bool) (log : List (Event D)) → AllRuns FirstOk log (anoint_unless D client found)
  anoint_unless-FirstOk true log = tt
  anoint_unless-FirstOk false log = try_anoint-FirstOk client.host log

  query-IsOk :
      (key host : Option String) (log : List (Event D))
      → AllRuns IsOk log (query_advertisements D client key host)
  unfolding query_advertisements
  query-IsOk key host log =
      AllRuns-bind (λ _ _. Unit {0}) IsOk log (query_advertisements_inner D client key host) _
        (AllRuns-always (λ _ _. Unit {0}) log (query_advertisements_inner D client key host)
          (λ l h. tt))
        (λ log' r u. tt)

  first_use-FirstOk : (log : List (Event D)) → AllRuns FirstOk log (first_use D client)
  first_use-FirstOk log =
      AllRuns-then (KeyRead D client) FirstOk log _ _ (get_identity_key-KeyRead D client log)
        (λ log1 key u.
          AllRuns-then IsOk FirstOk log1 _ _ (query-IsOk (some key) (some client.host) log1)
            (λ log2 ads u'. anoint_unless-FirstOk (advertised D client ads) log2)
            (λ log2 e h. absurd h))
        (λ log1 e h. h)

  first_use_at-FirstOk :
      (host : String) (log : List (Event D)) → AllRuns FirstOk log (first_use_at D client host)
  first_use_at-FirstOk host log =
      AllRuns-then (KeyRead D client) FirstOk log _ _ (get_identity_key-KeyRead D client log)
        (λ log1 key u. try_anoint-FirstOk host log1) (λ log1 e h. h)

  unless-Ready :
      (first : Io D (Unit {0}))
      → ((log : List (Event D)) → AllRuns FirstOk log first)
      → (done : Bool) (log : List (Event D))
      → AllRuns Ready ((load_initialized, done) ∷ log) (unless_initialized D client done first)
  unless-Ready first h true log = inl (Memᴰ.head refl)
  unless-Ready first h false log =
      AllRuns-then FirstOk Ready _ first _ (h _) (λ log' u u'. stored log') (λ log' e k. k)
    where
      stored :
          (log' : List (Event D))
          → AllRuns Ready log' (of_prog (perform store_initialized) >> ret (ok tt))
      stored log' = unfold bind in λ u. inr (Memᴰ.head refl)

  tried-Ready :
      (first : Io D (Unit {0}))
      → ((log : List (Event D)) → AllRuns FirstOk log first)
      → (log : List (Event D)) → AllRuns Ready log (get_or_try_init D client first)
  unfolding bind
  tried-Ready first h log = λ done. unless-Ready first h done log

  -- In every run of `init`, with a host or without (then it is `assert_initialized`): if it succeeds,
  -- the mark of the first use was found set or has been set; if it fails, the wallet gave no identity
  -- key. No failure of the overlay, of an advertisement or of the broadcast makes it fail.
  pub init-Ready :
      (target_host : Option String) (log : List (Event D))
      → AllRuns Ready log (init D client target_host)
  unfolding init assert_initialized
  init-Ready (some host) log = tried-Ready _ (first_use_at-FirstOk host) log
  init-Ready none log = tried-Ready _ first_use-FirstOk log
