-- ===== src/Encryption/Quiet.antt =====
-- Decrypting a body moves no money: none of its calls asks the wallet to internalize.
use mathlib.Core.WellFounded.{Acc}
use rust_messagebox_client.Prelude.{String, refl, Option, Bool-cases, inl, inr}
use rust_messagebox_client.Deps.{Deps}
use rust_messagebox_client.Io.{Prog}
use rust_messagebox_client.Io.Avoids.{is_payment, Avoids, Avoids-bind, Avoids-then, Avoids-of_call}
use rust_messagebox_client.Encryption.{
  DecryptOutcome, when_some_related, layer, Layers, is_encrypted, open_body_typed, decrypt_body,
  try_decrypt_layers_typed, try_decrypt_message_typed,
}

module _ (D : Deps) (sender : String) (originator : Option String) where
  decrypt_body-Avoids : (raw : String) → Avoids is_payment (decrypt_body D raw sender originator)
  unfolding decrypt_body
  decrypt_body-Avoids raw = Avoids-then _ _ _ tt (λ v. Avoids-then _ _ _ tt (λ b64.
      Avoids-then _ _ _ tt (λ c.
        Avoids-then _ _ _ tt
          (λ pk. Avoids-then _ _ _ (Avoids-of_call _ _ _ (refl, λ r. tt)) (λ bytes. tt)))))

  open_body_typed-Avoids :
      (raw : String) → Avoids is_payment (open_body_typed D sender originator raw)
  unfolding open_body_typed
  open_body_typed-Avoids raw = elim (Bool-cases (is_encrypted D raw)) [
    | inl e ↦ rw e (Avoids-bind _ _ _ (decrypt_body-Avoids raw) (λ r. tt))
    | inr e ↦ rw e tt
  ]

  try_decrypt_layers_typed-Avoids :
      (raw : String) (w : Layers D raw)
      → Avoids is_payment (try_decrypt_layers_typed D sender originator raw w)
  unfolding try_decrypt_layers_typed
  try_decrypt_layers_typed-Avoids raw (Acc.intro _ deeper) =
      when_some_related (λ (_ : String) (m : Prog D DecryptOutcome). Avoids is_payment m)
        (layer D raw) (λ _ _. raw) raw _ _
        (λ inner e. try_decrypt_layers_typed-Avoids inner (deeper inner e))
        (open_body_typed-Avoids raw)

  pub try_decrypt_message_typed-Avoids :
      (raw : String) → Avoids is_payment (try_decrypt_message_typed D raw sender originator)
  unfolding try_decrypt_message_typed
  try_decrypt_message_typed-Avoids raw = try_decrypt_layers_typed-Avoids raw (D.layers_end raw)
