-- ===== src/Encryption.antt =====
-- src/encryption.rs
pub mod Agreement
pub mod Provenance
pub mod Quiet
pub mod RoundTrip
use mathlib.Core.Option
use mathlib.Core.WellFounded.{Acc}
use rust_messagebox_client.Prelude.{
  ℕ, String, ◌<>◌, ◌≡◌, refl, Bool, true, false, Option, none, some, List, [], ◌∷◌, is_some,
  if◌then◌else◌,
}
use rust_messagebox_client.Error.{
  Result, ok, err, Fallible, encryption, wallet, json, ok_or, map_err,
}
use rust_messagebox_client.Deps.{Deps, unwrapped}
use rust_messagebox_client.Io.{
  KeyArgs, Counterparty, other, encrypt, decrypt, create_hmac, Prog, ret, bind, perform, Io,
  of_result, of_call, ◌>>=◌,
}

pub data DecryptOutcome : Type 0 where
  decrypted : String → DecryptOutcome
  plaintext : String → DecryptOutcome

unfoldable pub into_body : DecryptOutcome → String
into_body (decrypted s) = s
into_body (plaintext s) = s

unfoldable pub is_authenticated : DecryptOutcome → Bool
is_authenticated (decrypted _) = true
is_authenticated (plaintext _) = false

-- A case split that hands the case its equation.
abbrev pub when_some {ℓ κ} :
    {A : Type ℓ} {B : Type κ} (o : Option A) → ((a : A) → o ≡ some a → B) → B → B
when_some none f b = b
when_some (some a) f b = f a refl

-- Case 2 of `try_decrypt_message`: fails open to the raw body.
abbrev or_raw : String → Fallible String → String
or_raw raw (ok body) = body
or_raw raw (err _) = raw

abbrev or_plaintext : String → Fallible String → DecryptOutcome
or_plaintext raw (ok body) = decrypted body
or_plaintext raw (err _) = plaintext raw

pub when_some_related {ℓ κ μ ν} :
    {A : Type ℓ} {B : Type κ} {C : Type μ} (P : B → C → Type ν) (o : Option A)
    (f : (a : A) → o ≡ some a → B) (b : B) (f' : (a : A) → o ≡ some a → C) (b' : C)
    → ((a : A) (e : o ≡ some a) → P (f a e) (f' a e))
    → P b b'
    → P (when_some o f b) (when_some o f' b')
when_some_related P none f b f' b' hf hb = hb
when_some_related P (some a) f b f' b' hf hb = hf a refl

pub when_some-none {ℓ κ} :
    {A : Type ℓ} {B : Type κ} (o : Option A) (f : (a : A) → o ≡ some a → B) (b : B)
    → o ≡ none
    → when_some o f b ≡ b
when_some-none none f b h = refl
when_some-none (some a) f b h = cc

module _ (D : Deps) where
  open D use {
    PublicKey, public_key_from_string, Value, from_str, value_to_string, get, as_str, string_value,
    object_value, json_text, as_bytes, from_utf8, base64_encode, base64_decode, hex_encode,
    layers_end,
  }

  -- Protocol `[1, "messagebox"]` with key id `"1"`.
  abbrev pub message_key : PublicKey → KeyArgs D
  message_key pk = record {
    security_level = 1;
    protocol = "messagebox";
    key_id = "1";
    counterparty = other (some pk);
  }

  -- `json!({"encryptedMessage": b64}).to_string()`
  abbrev pub envelope : List ℕ → String
  envelope ciphertext =
      value_to_string
        (object_value (("encryptedMessage", string_value (base64_encode ciphertext)) ∷ []))

  unfoldable pub encrypt_body : String → String → Option String → Io D String
  encrypt_body body recipient originator = do
    pk ← of_result encryption (public_key_from_string recipient)
    ciphertext ← of_call wallet (perform (encrypt (message_key pk) (as_bytes body) originator))
    ret (ok (envelope ciphertext))

  -- `v["encryptedMessage"].as_str()`; a missing member indexes to `null`.
  abbrev encrypted_message : Value → Option String
  encrypted_message v = Option.bind (get v "encryptedMessage") as_str

  unfoldable pub decrypt_body : String → String → Option String → Io D String
  decrypt_body encrypted_json sender originator = do
    v ← of_result json (from_str encrypted_json)
    b64 ← ret (ok_or (encryption "missing encryptedMessage field") (encrypted_message v))
    ciphertext ← of_result (λ e. encryption ("base64 decode: " <> e)) (base64_decode b64)
    pk ← of_result encryption (public_key_from_string sender)
    bytes ← of_call wallet (perform (decrypt (message_key pk) ciphertext originator))
    of_result (λ e. encryption ("utf-8 decode: " <> e)) (from_utf8 bytes)

  abbrev pub layer : String → Option String
  layer = unwrapped from_str get as_str value_to_string

  abbrev pub Layers : String → Type 0
  Layers = Acc (λ (inner outer : String). layer outer ≡ some inner)

  -- `v.get("encryptedMessage").is_some()` on a body that parses.
  abbrev pub is_encrypted : String → Bool
  is_encrypted raw = elim (from_str raw) [
    | err _ ↦ false
    | ok v ↦ is_some (get v "encryptedMessage")
  ]

  module _ (sender : String) (originator : Option String) where
    -- A body that is not wrapped: encrypted, or passed through.
    unfoldable pub open_body : String → Prog D String
    open_body raw =
        if is_encrypted raw
        then bind (decrypt_body raw sender originator) (λ r. ret (or_raw raw r))
        else ret raw

    unfoldable pub open_body_typed : String → Prog D DecryptOutcome
    open_body_typed raw =
        if is_encrypted raw
        then bind (decrypt_body raw sender originator) (λ r. ret (or_plaintext raw r))
        else ret (plaintext raw)

    -- Case 1 first: a wrapped body is unwrapped, and the function calls itself.
    unfoldable pub try_decrypt_layers : (raw : String) → Layers raw → Prog D String
    try_decrypt_layers raw (Acc.intro _ deeper) =
        when_some (layer raw) (λ inner e. try_decrypt_layers inner (deeper inner e)) (open_body raw)

    unfoldable pub try_decrypt_layers_typed : (raw : String) → Layers raw → Prog D DecryptOutcome
    try_decrypt_layers_typed raw (Acc.intro _ deeper) =
        when_some (layer raw) (λ inner e. try_decrypt_layers_typed inner (deeper inner e))
          (open_body_typed raw)

  unfoldable pub try_decrypt_message : String → String → Option String → Prog D String
  try_decrypt_message raw sender originator =
      try_decrypt_layers sender originator raw (layers_end raw)

  unfoldable pub try_decrypt_message_typed : String → String → Option String → Prog D DecryptOutcome
  try_decrypt_message_typed raw sender originator =
      try_decrypt_layers_typed sender originator raw (layers_end raw)

  unfoldable pub generate_message_id : String → String → Option String → Io D String
  generate_message_id body recipient originator = do
    json_body ← of_result json (json_text body)
    pk ← of_result encryption (public_key_from_string recipient)
    hmac ← of_call wallet (perform (create_hmac (message_key pk) (as_bytes json_body) originator))
    ret (ok (hex_encode hmac))
