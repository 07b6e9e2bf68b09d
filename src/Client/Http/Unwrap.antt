-- ===== src/Client/Http/Unwrap.antt =====
-- The poll of src/client.rs decrypts as the list operations do.
use mathlib.Core.WellFounded.{Acc, Acc-prop}
use mathlib.Core.Path.{subst}
use rust_messagebox_client.Prelude.{String, ◌≡◌, refl, ap, ◌∙◌, Option, none, some, unwrap_or}
use rust_messagebox_client.Deps.{Deps}
use rust_messagebox_client.Encryption.{
  layer, Layers, when_some, when_some-none, open_body_typed, try_decrypt_layers_typed,
  try_decrypt_message_typed,
}
use rust_messagebox_client.Client.Http.{extract_plain_body}

when_some-elim {ℓ κ μ} :
    {A : Type ℓ} {B : Type κ} (P : B → Type μ) (o : Option A) (f : (a : A) → o ≡ some a → B) (b : B)
    → ((a : A) (e : o ≡ some a) → P (f a e))
    → (o ≡ none → P b)
    → P (when_some o f b)
when_some-elim P none f b hf hb = hb refl
when_some-elim P (some a) f b hf hb = hf a refl

module _ (D : Deps) (sender : String) (originator : Option String) where
  same_body :
      (x y : String) (w : Layers D x) (v : Layers D y)
      → x ≡ y
      → try_decrypt_layers_typed D sender originator x w
        ≡ try_decrypt_layers_typed D sender originator y v
  same_body x y w v p =
      subst
        (λ y.
          (v : Layers D y)
          → try_decrypt_layers_typed D sender originator x w
            ≡ try_decrypt_layers_typed D sender originator y v)
        p (λ v. ap (try_decrypt_layers_typed D sender originator x) (Acc-prop w v)) v

  one_layer :
      (raw : String) (w : Layers D raw) (v : Layers D (unwrap_or (layer D raw) raw))
      → try_decrypt_layers_typed D sender originator (unwrap_or (layer D raw) raw) v
        ≡ try_decrypt_layers_typed D sender originator raw w
  unfolding try_decrypt_layers_typed
  one_layer raw (Acc.intro _ deeper) v =
      when_some-elim
        (λ m. try_decrypt_layers_typed D sender originator (unwrap_or (layer D raw) raw) v ≡ m)
        (layer D raw) _ _ (λ inner e. same_body _ inner v (deeper inner e) (rw e refl))
        (λ e.
          same_body _ raw v (Acc.intro raw deeper) (rw e refl)
          ∙ when_some-none (layer D raw) _ (open_body_typed D sender originator raw) e)

  -- For every body, sender and originator: to unwrap one layer of `{"message": ...}` first, as the
  -- poll does, changes neither the wallet calls nor the outcome of a decryption.
  try_decrypt_message_typed-extract_plain_body :
      (raw : String)
      → try_decrypt_message_typed D (extract_plain_body D raw) sender originator
        ≡ try_decrypt_message_typed D raw sender originator
  unfolding try_decrypt_message_typed extract_plain_body
  try_decrypt_message_typed-extract_plain_body raw = one_layer raw (D.layers_end raw) _
