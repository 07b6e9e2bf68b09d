-- ===== src/Encryption/Agreement.antt =====
-- `try_decrypt_message` is `try_decrypt_message_typed` without the provenance.
use mathlib.Core.WellFounded.{Acc}
use mathlib.Core.Path.{fun_ext}
use rust_messagebox_client.Prelude.{String, ◌≡◌, refl, sym, ap, ◌∙◌, Option, Bool-cases, inl, inr}
use rust_messagebox_client.Error.{ok, err}
use rust_messagebox_client.Deps.{Deps}
use rust_messagebox_client.Io.{Prog, ret, bind}
use rust_messagebox_client.Io.Laws.{bind_assoc}
use rust_messagebox_client.Encryption.{
  DecryptOutcome, into_body, when_some_related, layer, Layers, is_encrypted, open_body,
  open_body_typed, decrypt_body, try_decrypt_layers, try_decrypt_layers_typed, try_decrypt_message,
  try_decrypt_message_typed,
}

module _ (D : Deps) (sender : String) (originator : Option String) where
  abbrev forget : Prog D DecryptOutcome → Prog D String
  forget m = bind m (λ o. ret (into_body o))

  open_body-forget :
      (raw : String)
      → forget (open_body_typed D sender originator raw) ≡ open_body D sender originator raw
  unfolding open_body open_body_typed
  open_body-forget raw = elim (Bool-cases (is_encrypted D raw)) [
    | inl e ↦ rw e (
        bind_assoc (decrypt_body D raw sender originator) _ _
        ∙ ap (bind (decrypt_body D raw sender originator)) (
            fun_ext (elim [
              | ok b ↦ unfold bind into_body in refl
              | err b ↦ unfold bind into_body in refl
            ])))
    | inr e ↦ rw e (unfold bind into_body in refl)
  ]

  try_decrypt_layers_typed-forget :
      (raw : String) (w : Layers D raw)
      → forget (try_decrypt_layers_typed D sender originator raw w)
        ≡ try_decrypt_layers D sender originator raw w
  unfolding try_decrypt_layers try_decrypt_layers_typed
  try_decrypt_layers_typed-forget raw (Acc.intro _ deeper) =
      when_some_related (λ m n. forget m ≡ n) (layer D raw) _ _ _ _
        (λ inner e. try_decrypt_layers_typed-forget inner (deeper inner e)) (open_body-forget raw)

  -- For every body, sender and originator, the untyped function makes the calls that the typed one
  -- makes and returns the text that the typed outcome holds.
  try_decrypt_message-eq-typed :
      (raw : String)
      → try_decrypt_message D raw sender originator
        ≡ bind (try_decrypt_message_typed D raw sender originator) (λ o. ret (into_body o))
  unfolding try_decrypt_message try_decrypt_message_typed
  try_decrypt_message-eq-typed raw = sym (try_decrypt_layers_typed-forget raw (D.layers_end raw))
