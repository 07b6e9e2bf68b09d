-- ===== src/Encryption/RoundTrip.antt =====
-- What one party encrypts, the other one decrypts, given the laws of the codecs and of the wallets.
use mathlib.Core.Option
use rust_messagebox_client.Prelude.{ℕ, String, ◌≡◌, Option, none, some, List}
use rust_messagebox_client.Error.{ok}
use rust_messagebox_client.Deps.{Deps}
use rust_messagebox_client.Io.{Call, Reply, encrypt, decrypt}
use rust_messagebox_client.Encryption.{message_key, envelope}

module _ (D : Deps) where
  open D use {
    PublicKey, public_key_from_string, Value, from_str, get, as_str, as_bytes, from_utf8,
    base64_encode, base64_decode,
  }

  -- A wallet that answers without memory.
  abbrev pub Wallet : Type 0
  Wallet = (c : Call D) → Reply D c

  -- The laws that one message needs: JSON gives back the envelope's member, base64 and UTF-8 give
  -- back what was encoded, and the recipient's wallet opens what the sender's wallet sealed.
  pub record Opens (alice bob : Wallet) (sender recipient body : String) (from to : Option String)
      (ciphertext : List ℕ) : Type 0 where
    pub sender_key : PublicKey
    pub recipient_key : PublicKey
    pub value : Value
    pub sender_known : public_key_from_string sender ≡ ok sender_key
    pub recipient_known : public_key_from_string recipient ≡ ok recipient_key
    pub sealed : alice (encrypt (message_key D recipient_key) (as_bytes body) from) ≡ ok ciphertext
    pub opened : bob (decrypt (message_key D sender_key) ciphertext to) ≡ ok (as_bytes body)
    pub parsed : from_str (envelope D ciphertext) ≡ ok value
    pub unwrapped_already : get value "message" ≡ none
    pub member :
        (inner : Value) × (get value "encryptedMessage" ≡ some inner)
        × (as_str inner ≡ some (base64_encode ciphertext))
    pub base64 : base64_decode (base64_encode ciphertext) ≡ ok ciphertext
    pub utf8 : from_utf8 (as_bytes body) ≡ ok body
