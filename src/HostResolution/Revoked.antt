-- ===== src/HostResolution/Revoked.antt =====
-- What a successful `revoke_host_advertisement` of src/host_resolution.rs says of the run.
use mathlib.Core.List.{Memᴰ}
use rust_messagebox_client.Prelude.{ℕ, String, ◌++◌, ◌≡◌, some, List, [], ◌∷◌}
use rust_messagebox_client.Error.{ok, err, Fallible}
use rust_messagebox_client.Types.{AdvertisementToken}
use rust_messagebox_client.Deps.{Deps}
use rust_messagebox_client.Io.{
  CreateActionResult, create_action, create_signature, sign_action, broadcast_beef,
}
use rust_messagebox_client.Io.Runs.{Event, Extends}
use rust_messagebox_client.Session.{Client}
use rust_messagebox_client.HostResolution.{advertisement_key, revoke_args, make_data_push}
use rust_messagebox_client.HostResolution.Announced.{Identifies}

module _ (D : Deps) (client : Client) where
  open D use {
    LockingScript, Transaction, hex_encode, from_beef, transaction_id, script_from_hex, sha256,
    sighash_preimage, chunks_to_binary,
  }

  -- The script is one push of the wallet's signature, of the hash of the preimage of a
  -- transaction, with the byte 0x41.
  pub record Unlocks (partial_tx : Transaction) (lock : LockingScript) (log : List (Event D))
      (script : List ℕ) : Type 0 where
    pub preimage : List ℕ
    pub signature : List ℕ
    pub hashed : sighash_preimage partial_tx 0 0x41 1 lock ≡ ok preimage
    pub signed :
        Memᴰ
          (create_signature (advertisement_key D) (sha256 preimage) client.originator, ok signature)
          log
    pub pushed : script ≡ chunks_to_binary (make_data_push (signature ++ 0x41 ∷ []) ∷ [])

  abbrev UnlocksOk :
      Transaction → LockingScript → List (Event D) → List (Event D) → Fallible (List ℕ) → Type 0
  UnlocksOk partial_tx lock log log' (ok script) =
      Extends log log' × Unlocks partial_tx lock log' script
  UnlocksOk partial_tx lock log log' (err _) = Unit

  -- The overlay took a transaction of the id, which the wallet signed with a script that unlocks the
  -- token's.
  pub record Revoked (token : AdvertisementToken) (log : List (Event D)) (txid : String)
      : Type 0 where
    pub created : CreateActionResult D
    pub reference : List ℕ
    pub unsigned : List ℕ
    pub partial_tx : Transaction
    pub lock : LockingScript
    pub script : List ℕ
    pub beef : List ℕ
    pub made : Memᴰ (create_action (revoke_args D client token) client.originator, ok created) log
    pub signable : created.signable_transaction ≡ some (reference, unsigned)
    pub parsed : from_beef (hex_encode unsigned) ≡ ok partial_tx
    pub locked : script_from_hex token.locking_script ≡ ok lock
    pub unlocks : Unlocks partial_tx lock log script
    pub signed :
        Memᴰ (sign_action reference ((0, script) ∷ []) client.originator, ok (some beef)) log
    pub known : Identifies D client beef (ok txid)
    pub sent : Memᴰ (broadcast_beef "tm_messagebox" beef, ok tt) log

  abbrev pub RevokedOk : AdvertisementToken → List (Event D) → Fallible String → Type 0
  RevokedOk token log (ok txid) = Revoked token log txid
  RevokedOk token log (err _) = Unit
