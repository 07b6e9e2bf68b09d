-- ===== src/Session/Own.antt =====
-- What the identity key of a run is.
use mathlib.Core.List.{Memᴰ}
use rust_messagebox_client.Prelude.{String, ◌≡◌, refl, Option, none, some, List, ◌∷◌, ◌⊎◌, inl, inr}
use rust_messagebox_client.Error.{ok, err, Fallible, MessageBoxError, wallet}
use rust_messagebox_client.Deps.{Deps}
use rust_messagebox_client.Io.{get_identity_key as fetch_identity_key, load_identity_key, bind}
use rust_messagebox_client.Io.Runs.{Event, Extends, AllRuns}
use rust_messagebox_client.Session.{Client, identity_key_or, get_identity_key}

module _ (D : Deps) (client : Client) where
  -- The key that the cell held, or the wallet's.
  abbrev pub IsOwnKey : List (Event D) → String → Type 0
  IsOwnKey log key =
      Memᴰ (load_identity_key, some key) log
      ⊎ ((public_key : D.PublicKey) × Memᴰ (fetch_identity_key client.originator, ok public_key) log
          × (key ≡ D.to_der_hex public_key))

  abbrev pub OwnKeyOk : List (Event D) → List (Event D) → Fallible String → Type 0
  OwnKeyOk log log' (ok key) = Extends log log' × IsOwnKey log' key
  OwnKeyOk log log' (err _) = Extends log log'

  pub IsOwnKey-Extends :
      (log log' : List (Event D)) (key : String)
      → Extends log log'
      → IsOwnKey log key
      → IsOwnKey log' key
  IsOwnKey-Extends log log' key ext (inl held) = inl (ext _ held)
  IsOwnKey-Extends log log' key ext (inr (k, seen, same)) = inr (k, ext _ seen, same)

  fetched-IsOwnKey :
      (before log : List (Event D))
      → Extends before log
      → AllRuns (OwnKeyOk before) log (identity_key_or D client none)
  unfolding bind
  fetched-IsOwnKey before log ext (err e) = λ e' m. Memᴰ.tail (ext e' m)
  fetched-IsOwnKey before log ext (ok k) =
      λ done. ((λ e m. Memᴰ.tail (Memᴰ.tail (ext e m))), inr (k, Memᴰ.tail (Memᴰ.head refl), refl))

  cached-IsOwnKey :
      (log : List (Event D)) (cached : Option String)
      → AllRuns (OwnKeyOk log) ((load_identity_key, cached) ∷ log) (identity_key_or D client cached)
  cached-IsOwnKey log (some key) = ((λ e m. Memᴰ.tail m), inl (Memᴰ.head refl))
  cached-IsOwnKey log none = fetched-IsOwnKey log _ (λ e m. Memᴰ.tail m)

  pub get_identity_key-IsOwnKey :
      (log : List (Event D)) → AllRuns (OwnKeyOk log) log (get_identity_key D client)
  unfolding get_identity_key bind
  get_identity_key-IsOwnKey log = λ cached. cached-IsOwnKey log cached

  -- The wallet gave no key.
  abbrev pub KeyFails : List (Event D) → MessageBoxError → Type 0
  KeyFails log e =
      (e' : String) × Memᴰ (fetch_identity_key client.originator, err e') log × (e ≡ wallet e')

  abbrev pub KeyRead : List (Event D) → Fallible String → Type 0
  KeyRead log (ok _) = Unit
  KeyRead log (err e) = KeyFails log e

  key_or-KeyRead :
      (log : List (Event D)) (cached : Option String)
      → AllRuns KeyRead log (identity_key_or D client cached)
  unfolding bind
  key_or-KeyRead log (some key) = tt
  key_or-KeyRead log none = elim [ ok k ↦ λ u. tt | err e ↦ (e, Memᴰ.head refl, refl) ]

  pub get_identity_key-KeyRead :
      (log : List (Event D)) → AllRuns KeyRead log (get_identity_key D client)
  unfolding get_identity_key bind
  get_identity_key-KeyRead log = λ cached. key_or-KeyRead _ cached
