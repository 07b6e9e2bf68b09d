-- ===== src/Session/Init.antt =====
-- `assert_initialized` and `init` of src/client.rs.
pub mod Ready
use rust_messagebox_client.Prelude.{
  String, Bool, true, false, not, Option, none, some, List, ◌=?◌, all,
}
use rust_messagebox_client.Prelude.Text.{trim}
use rust_messagebox_client.Error.{ok}
use rust_messagebox_client.Types.{AdvertisementToken}
use rust_messagebox_client.Deps.{Deps}
use rust_messagebox_client.Io.{
  load_initialized, store_initialized, Io, ret, bind, perform, of_prog, ◌>>=◌, ◌>>◌,
}
use rust_messagebox_client.Session.{Client, get_identity_key}
use rust_messagebox_client.HostResolution.{query_advertisements, anoint_host}

module _ (D : Deps) (client : Client) where
  -- `init_once.get_or_try_init(first)`: the cell is set when `first` succeeds.
  abbrev pub unless_initialized : Bool → Io D (Unit {0}) → Io D (Unit {0})
  unless_initialized true first = ret (ok tt)
  unless_initialized false first = do first; of_prog (perform store_initialized); ret (ok tt)

  abbrev pub get_or_try_init : Io D (Unit {0}) → Io D (Unit {0})
  get_or_try_init first = do
    initialized ← of_prog (perform load_initialized)
    unless_initialized initialized first

  -- `if let Err(e) = anoint_host(host) { eprintln!(…) }`
  abbrev pub try_anoint : String → Io D (Unit {0})
  try_anoint host = bind (anoint_host D client host) (λ _. ret (ok tt))

  abbrev pub anoint_unless : Bool → Io D (Unit {0})
  anoint_unless true = ret (ok tt)
  anoint_unless false = try_anoint client.host

  -- `ads.iter().any(|ad| ad.host.trim() == self.host.trim())`, the negation of the source's test.
  abbrev pub advertised : List AdvertisementToken → Bool
  advertised ads =
      not (all (λ (ad : AdvertisementToken). not (trim ad.host =? trim client.host)) ads)

  abbrev pub first_use : Io D (Unit {0})
  first_use = do
    identity_key ← get_identity_key D client
    ads ← query_advertisements D client (some identity_key) (some client.host)
    anoint_unless (advertised ads)

  unfoldable pub assert_initialized : Io D (Unit {0})
  assert_initialized = get_or_try_init first_use

  abbrev pub first_use_at : String → Io D (Unit {0})
  first_use_at host = do get_identity_key D client; try_anoint host

  unfoldable pub init : Option String → Io D (Unit {0})
  init (some host) = get_or_try_init (first_use_at host)
  init none = assert_initialized
