-- ===== src/Error/Try.antt =====
-- `?` in a function that returns a `Result`, without calls.
use rust_messagebox_client.Prelude.{Bool, true, false}
use rust_messagebox_client.Error.{Result, ok, err}

infixl 5 ◌>>=◌ ◌>>◌
abbrev pub ◌>>=◌ {ℓ κ μ} :
    {A : Type ℓ} {B : Type κ} {E : Type μ} → Result A E → (A → Result B E) → Result B E
ok a >>= f = f a
err e >>= f = err e

abbrev pub ◌>>◌ {κ μ} : {B : Type κ} {E : Type μ} → Result (Unit {0}) E → Result B E → Result B E
m >> n = m >>= λ _. n

-- `if b { return Err(e); }`
abbrev pub fail_if {μ} : {E : Type μ} → Bool → E → Result (Unit {0}) E
fail_if true e = err e
fail_if false e = ok tt
