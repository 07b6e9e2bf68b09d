-- ===== src/Session.antt =====
-- The fixed part of a `MessageBoxClient` of src/client.rs, and its cached identity key.
pub mod Init
pub mod Own
use rust_messagebox_client.Prelude.{String, Option, none, some}
use rust_messagebox_client.Prelude.Text.{trim}
use rust_messagebox_client.Error.{ok, wallet}
use rust_messagebox_client.Deps.{Deps}
use rust_messagebox_client.Io.{
  get_identity_key as fetch_identity_key, load_identity_key, store_identity_key, Io, ret, perform,
  of_prog, of_call, ◌>>=◌, ◌>>◌,
}

pub record Client : Type 0 where
  pub host : String
  pub originator : Option String

unfoldable pub new : String → Option String → Client
new host originator = record { host = trim host; originator = originator }

module _ (D : Deps) (client : Client) where
  -- With what the cell held, and without: the wallet is asked, and the cell is set.
  abbrev pub identity_key_or : Option String → Io D String
  identity_key_or (some key) = ret (ok key)
  identity_key_or none = do
    public_key ← of_call wallet (perform (fetch_identity_key client.originator))
    of_prog (perform (store_identity_key (D.to_der_hex public_key)))
    ret (ok (D.to_der_hex public_key))

  unfoldable pub get_identity_key : Io D String
  get_identity_key = do cached ← of_prog (perform load_identity_key); identity_key_or cached
