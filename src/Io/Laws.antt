-- ===== src/Io/Laws.antt =====
-- The laws of `bind`.
use rust_messagebox_client.Prelude.{◌≡◌, refl}
use mathlib.Core.Path.{fun_ext, ap}
use rust_messagebox_client.Deps.{Deps}
use rust_messagebox_client.Io.{Prog, ret, call, bind}

module _ {D : Deps} where
  pub bind_ret {ℓ κ} : {A : Type ℓ} {B : Type κ} (a : A) (f : A → Prog D B) → bind (ret a) f ≡ f a
  unfolding bind
  bind_ret a f = refl

  pub bind_assoc {ℓ κ μ} :
      {A : Type ℓ} {B : Type κ} {C : Type μ} (m : Prog D A) (f : A → Prog D B) (g : B → Prog D C)
      → bind (bind m f) g ≡ bind m (λ a. bind (f a) g)
  unfolding bind
  bind_assoc (ret a) f g = refl
  bind_assoc (call c k) f g = ap (call c) (fun_ext (λ r. bind_assoc (k r) f g))
