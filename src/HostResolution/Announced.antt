-- ===== src/HostResolution/Announced.antt =====
-- What a successful `anoint_host` of src/host_resolution.rs says of the run.
use mathlib.Core.List.{Memᴰ}
use rust_messagebox_client.Prelude.{ℕ, String, ◌≡◌, refl, some, List, [], ◌∷◌}
use rust_messagebox_client.Error.{ok, err, Result, Fallible, MessageBoxError, map_err}
use rust_messagebox_client.Deps.{Deps}
use rust_messagebox_client.Io.{
  CreateActionResult, push_drop_lock, create_action, broadcast_beef, bind,
}
use rust_messagebox_client.Io.Runs.{Event, Extends, AllRuns, AllRuns-of_result}
use rust_messagebox_client.Session.{Client}
use rust_messagebox_client.Session.Own.{IsOwnKey}
use rust_messagebox_client.HostResolution.{advertisement_key, anoint_args, txid_of, broadcast}

module _ (D : Deps) (client : Client) where
  open D use {
    LockingScript, Transaction, hex_decode, hex_encode, as_bytes, from_beef, transaction_id,
    new_broadcaster,
  }

  -- The locking script is the wallet's for the key and the host.
  pub record Locked (host : String) (log : List (Event D)) (lock : LockingScript) : Type 0 where
    pub identity_key : String
    pub key_bytes : List ℕ
    pub own : IsOwnKey D client log identity_key
    pub decoded : hex_decode identity_key ≡ ok key_bytes
    pub locked :
        Memᴰ
          (
            push_drop_lock (key_bytes ∷ as_bytes host ∷ []) (advertisement_key D) client.originator,
            ok lock,
          )
          log

  -- The transaction of the id has one output, with such a script, and the overlay took it.
  pub record Announced (host : String) (log : List (Event D)) (txid : String) : Type 0 where
    pub lock : LockingScript
    pub created : CreateActionResult D
    pub beef : List ℕ
    pub tx : Transaction
    pub before : List (Event D)
    pub names : Locked host before lock
    pub made : Memᴰ (create_action (anoint_args D client lock) client.originator, ok created) log
    pub gives : created.tx ≡ some beef
    pub parsed : from_beef (hex_encode beef) ≡ ok tx
    pub known : transaction_id tx ≡ ok txid
    pub sent : Memᴰ (broadcast_beef "tm_messagebox" beef, ok tt) log

  abbrev pub AnnouncedOk : String → List (Event D) → Fallible String → Type 0
  AnnouncedOk host log (ok txid) = Announced host log txid
  AnnouncedOk host log (err _) = Unit

  abbrev pub Identifies : List ℕ → Fallible String → Type 0
  Identifies beef (ok txid) =
      (tx : Transaction) × (from_beef (hex_encode beef) ≡ ok tx) × (transaction_id tx ≡ ok txid)
  Identifies beef (err _) = Unit

  identified :
      (beef : List ℕ) (log : List (Event D)) (tx : Transaction)
      → from_beef (hex_encode beef) ≡ ok tx
      → (g : String → MessageBoxError) (r : Result String String) → transaction_id tx ≡ r
      → (log ≡ log) × Identifies beef (map_err g r)
  identified beef log tx parsed g (ok txid) e = (refl, (tx, parsed, e))
  identified beef log tx parsed g (err _) e = (refl, tt)

  pub txid_of-Identifies :
      (parse_error id_error : String → MessageBoxError) (beef : List ℕ) (log : List (Event D))
      → AllRuns
          (λ log' r. (log' ≡ log) × Identifies beef r)
          log
          (txid_of D client parse_error id_error beef)
  txid_of-Identifies parse_error id_error beef log =
      AllRuns-of_result (λ log' r. (log' ≡ log) × Identifies beef r) log parse_error
        (from_beef (hex_encode beef)) _
        (λ tx parsed. identified beef log tx parsed id_error (transaction_id tx) refl)
        (λ e. (refl, tt))

  abbrev pub Sent : List ℕ → List (Event D) → List (Event D) → Fallible (Unit {0}) → Type 0
  Sent beef log log' (ok _) =
      Extends log log' × Memᴰ (broadcast_beef "tm_messagebox" beef, ok tt) log'
  Sent beef log log' (err _) = Unit

  pub broadcast-Sent :
      (beef : List ℕ) (log : List (Event D)) → AllRuns (Sent beef log) log (broadcast D beef)
  unfolding bind
  broadcast-Sent beef log =
      AllRuns-of_result (Sent beef log) log _ new_broadcaster _
        (λ u h. elim [ err e ↦ tt | ok tt ↦ ((λ e m. Memᴰ.tail m), Memᴰ.head refl) ]) (λ e. tt)
