-- ===== src/Encryption/Provenance.antt =====
-- What an authenticated outcome says of the run that gave it.
use mathlib.Core.WellFounded.{Acc}
use rust_messagebox_client.Prelude.{
  ℕ, String, ◌≡◌, refl, Option, some, List, ◌∷◌, Bool-cases, inl, inr,
}
use rust_messagebox_client.Error.{ok, err, Fallible, Result-cases, ok_or-ok}
use rust_messagebox_client.Deps.{Deps}
use rust_messagebox_client.Io.{decrypt}
use rust_messagebox_client.Io.Runs.{
  Event, AllRuns, AllRuns-bind, AllRuns-of_result, AllRuns-of_call, AllRuns-value,
}
use rust_messagebox_client.Encryption.{
  DecryptOutcome, decrypted, plaintext, message_key, encrypted_message, when_some,
  when_some_related, layer, Layers, is_encrypted, open_body_typed, or_plaintext, decrypt_body,
  try_decrypt_layers_typed, try_decrypt_message_typed,
}

module _ (D : Deps) (sender : String) (originator : Option String) where
  open D use {PublicKey, public_key_from_string, Value, from_str, base64_decode, from_utf8}

  -- The last call of the run was a decryption under the sender's key of the ciphertext in `raw`,
  -- and its reply is the text `body`.
  pub record Opened (raw : String) (before log : List (Event D)) (body : String) : Type 0 where
    pub key : PublicKey
    pub ciphertext : List ℕ
    pub bytes : List ℕ
    pub value : Value
    pub b64 : String
    pub sender_key : public_key_from_string sender ≡ ok key
    pub parsed : from_str raw ≡ ok value
    pub member : encrypted_message D value ≡ some b64
    pub decoded : base64_decode b64 ≡ ok ciphertext
    pub text : from_utf8 bytes ≡ ok body
    pub last : log ≡ (decrypt (message_key D key) ciphertext originator, ok bytes) ∷ before

  abbrev Decrypts : String → List (Event D) → List (Event D) → Fallible String → Type 0
  Decrypts raw before log (ok body) = Opened raw before log body
  Decrypts raw before log (err _) = Unit

  decrypt_body-Decrypts :
      (raw : String) (log : List (Event D))
      → AllRuns (Decrypts raw log) log (decrypt_body D raw sender originator)
  unfolding decrypt_body
  decrypt_body-Decrypts raw log =
      AllRuns-of_result P log _ (from_str raw) _
        (λ v parsed.
          AllRuns-value P log _ _
            (λ b64 member.
              AllRuns-of_result P log _ (base64_decode b64) _
                (λ c decoded.
                  AllRuns-of_result P log _ (public_key_from_string sender) _
                    (λ pk sender_key.
                      AllRuns-of_call
                        (λ log' r. log' ≡ (decrypt (message_key D pk) c originator, r) ∷ log) P log
                        _ _ _ (λ r. refl)
                        (λ log' bytes last. elim (Result-cases (from_utf8 bytes)) [
                          | inl (t, text) ↦ rw text (record {
                            key = pk;
                            ciphertext = c;
                            bytes = bytes;
                            value = v;
                            b64 = b64;
                            sender_key = sender_key;
                            parsed = parsed;
                            member = ok_or-ok _ _ b64 member;
                            decoded = decoded;
                            text = text;
                            last = last;
                          })
                          | inr (e, bad) ↦ rw bad tt
                        ])
                        (λ log' e h. tt))
                    (λ e. tt))
                (λ e. tt))
            (λ e. tt))
        (λ e. tt)
    where
      P : List (Event D) → Fallible String → Type 0
      P = Decrypts raw log

  -- What an outcome for the unwrapped body `raw` claims.
  abbrev pub Claims : String → List (Event D) → List (Event D) → DecryptOutcome → Type 0
  Claims raw before log (decrypted body) = Opened raw before log body
  Claims raw before log (plaintext body) = body ≡ raw

  Claims-or_plaintext :
      (raw : String) (before log : List (Event D)) (r : Fallible String)
      → Decrypts raw before log r
      → Claims raw before log (or_plaintext raw r)
  Claims-or_plaintext raw before log (ok body) h = h
  Claims-or_plaintext raw before log (err e) h = refl

  open_body_typed-Claims :
      (raw : String) (log : List (Event D))
      → AllRuns (Claims raw log) log (open_body_typed D sender originator raw)
  unfolding open_body_typed
  open_body_typed-Claims raw log = elim (Bool-cases (is_encrypted D raw)) [
    | inl e ↦ rw e (
        AllRuns-bind (Decrypts raw log) (Claims raw log) log (decrypt_body D raw sender originator)
          _ (decrypt_body-Decrypts raw log) (λ log' r h. Claims-or_plaintext raw log log' r h))
    | inr e ↦ rw e refl
  ]

  -- The text under all layers of `{"message": …}`.
  pub innermost : (raw : String) → Layers D raw → String
  innermost raw (Acc.intro _ deeper) =
      when_some (layer D raw) (λ inner e. innermost inner (deeper inner e)) raw

  pub innermost_body : String → String
  innermost_body raw = innermost raw (D.layers_end raw)

  try_decrypt_layers_typed-Claims :
      (raw : String) (w : Layers D raw) (log : List (Event D))
      → AllRuns
          (Claims (innermost raw w) log)
          log
          (try_decrypt_layers_typed D sender originator raw w)
  unfolding try_decrypt_layers_typed innermost
  try_decrypt_layers_typed-Claims raw (Acc.intro _ deeper) log =
      when_some_related (λ t m. AllRuns (Claims t log) log m) (layer D raw) _ _ _ _
        (λ inner e. try_decrypt_layers_typed-Claims inner (deeper inner e) log)
        (open_body_typed-Claims raw log)

  -- In every run, whatever the wallet replies: an outcome `decrypted` comes from a last call that
  -- asked the wallet to decrypt, under the claimed sender's key, the ciphertext of the innermost
  -- body, and whose reply is the outcome's text; an outcome `plaintext` is the innermost body.
  pub try_decrypt_message_typed-Claims :
      (raw : String) (log : List (Event D))
      → AllRuns
          (Claims (innermost_body raw) log)
          log
          (try_decrypt_message_typed D raw sender originator)
  unfolding try_decrypt_message_typed innermost_body
  try_decrypt_message_typed-Claims raw log =
      try_decrypt_layers_typed-Claims raw (D.layers_end raw) log
