-- ===== src/Error.antt =====
-- src/error.rs, and Rust's `Result`.
pub mod Try
use rust_messagebox_client.Prelude.Decimal.{decimal}
use rust_messagebox_client.Prelude.{ℕ, String, ◌<>◌, ◌≡◌, refl, ◌⊎◌, inl, inr, Option, none, some}

pub data Result {ℓ κ} (A : Type ℓ) (E : Type κ) : Type (ℓ ⊔ κ) where
  ok : A → Result A E
  err : E → Result A E

-- A text stands for the message of the library error that a variant wraps. `json` holds the text
-- of a `serde_json::Error`.
pub data MessageBoxError : Type 0 where
  wallet : String → MessageBoxError
  auth : String → MessageBoxError
  http : ℕ → String → MessageBoxError
  encryption : String → MessageBoxError
  json : String → MessageBoxError
  missing_header : String → MessageBoxError
  not_initialized : MessageBoxError
  web_socket : String → MessageBoxError
  overlay : String → MessageBoxError
  validation : String → MessageBoxError

-- `Display`, as `thiserror` derives it.
unfoldable pub display : MessageBoxError → String
display (wallet e) = "wallet error: " <> e
display (auth e) = "auth error: " <> e
display (http status url) = "HTTP error: status " <> (decimal status <> (" from " <> url))
display (encryption e) = "encryption error: " <> e
display (json e) = "JSON parse error: " <> e
display (missing_header name) = "missing header: " <> name
display not_initialized = "not initialized"
display (web_socket e) = "websocket error: " <> e
display (overlay e) = "overlay error: " <> e
display (validation e) = "validation error: " <> e

abbrev pub Fallible {ℓ} : Type ℓ → Type ℓ
Fallible A = Result A MessageBoxError

module _ {ℓ κ} {A : Type ℓ} {E : Type κ} where
  -- `.ok()`
  abbrev pub to_option : Result A E → Option A
  to_option (ok a) = some a
  to_option (err _) = none

  -- `.ok_or(e)`
  abbrev pub ok_or : E → Option A → Result A E
  ok_or e none = err e
  ok_or e (some a) = ok a

  -- `.map_err(f)`
  abbrev pub map_err {μ} : {F : Type μ} → (E → F) → Result A E → Result A F
  map_err f (ok a) = ok a
  map_err f (err e) = err (f e)

  -- To split on a computed result and keep the equation.
  pub Result-cases : (r : Result A E) → ((a : A) × (r ≡ ok a)) ⊎ ((e : E) × (r ≡ err e))
  Result-cases (ok a) = inl (a, refl)
  Result-cases (err e) = inr (e, refl)

  pub ok_or-ok : (e : E) (o : Option A) (a : A) → ok_or e o ≡ ok a → o ≡ some a
  ok_or-ok e none a h = cc
  ok_or-ok e (some b) a h = cc
