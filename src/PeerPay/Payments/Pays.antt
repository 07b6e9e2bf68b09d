-- ===== src/PeerPay/Payments/Pays.antt =====
-- What a token made by `create_payment_token` of src/peer_pay.rs is worth to its recipient.
use mathlib.Core.List.{Memᴰ}
use rust_messagebox_client.Prelude.{
  ℕ, String, ◌≡◌, refl, ◌⊎◌, inl, inr, Option, none, some, List, [], ◌∷◌,
}
use rust_messagebox_client.Error.{Result, ok, err, Fallible, MessageBoxError, wallet, json, map_err}
use rust_messagebox_client.Types.{PaymentToken}
use rust_messagebox_client.Deps.{Deps}
use rust_messagebox_client.Io.{
  CreateActionResult, create_nonce, get_public_key, create_action, sign_action, bind, ret, perform,
  of_call, of_result, ◌>>=◌,
}
use rust_messagebox_client.Io.Runs.{Event, AllRuns, Extends, AllRuns-then, AllRuns-of_result}
use rust_messagebox_client.Session.{Client}
use rust_messagebox_client.HttpOps.Fees.{fee_key}
use rust_messagebox_client.PeerPay.Payments.{
  instructions, token_args, token_lock, finished, pay_to, create_payment_token,
}

module _ (D : Deps) (client : Client) where
  open D use {
    PublicKey, LockingScript, public_key_from_string, to_hash, p2pkh_lock, script_to_hex, from_hex,
    custom_instructions_json,
  }

  -- The transaction is the one that the wallet made, or signed in a second step.
  abbrev pub Finished : List (Event D) → CreateActionResult D → List ℕ → Type 0
  Finished log created tx =
      (created.tx ≡ some tx)
      ⊎ ((reference : List ℕ) × (unsigned : List ℕ) × (created.signable_transaction
            ≡ some (reference, unsigned))
          × Memᴰ (sign_action reference [] client.originator, ok (some tx)) log)

  -- The wallet derived a key for the recipient under two nonces of the run.
  pub record Keyed (recipient : String) (log : List (Event D)) (prefix suffix : String)
      (key : PublicKey) : Type 0 where
    pub recipient_pk : PublicKey
    pub first : Memᴰ (create_nonce, ok prefix) log
    pub second : Memᴰ (create_nonce, ok suffix) log
    pub known : public_key_from_string recipient ≡ ok recipient_pk
    pub derived :
        Memᴰ (get_public_key (fee_key D prefix suffix recipient_pk) client.originator, ok key) log

  -- The only output of the token's transaction pays the amount to such a key, for the token's prefix
  -- and suffix.
  pub record Pays (recipient : String) (amount : ℕ) (log : List (Event D)) (token : PaymentToken)
      : Type 0 where
    pub prefix : String
    pub suffix : String
    pub key : PublicKey
    pub lock : LockingScript
    pub script : List ℕ
    pub custom : String
    pub created : CreateActionResult D
    pub keyed : Keyed recipient log prefix suffix key
    pub locked : p2pkh_lock (to_hash key) ≡ ok lock
    pub hashed : from_hex (script_to_hex lock) ≡ ok script
    pub told : custom_instructions_json (instructions D prefix suffix recipient) ≡ ok custom
    pub made :
        Memᴰ (create_action (token_args D script amount custom) client.originator, ok created) log
    pub finish : Finished log created token.transaction
    pub worth : token.amount ≡ amount
    pub derivation : token.custom_instructions ≡ instructions D prefix suffix recipient
    pub unindexed : token.output_index ≡ none

  Keyed-Extends :
      (recipient : String) (log log' : List (Event D)) (prefix suffix : String) (key : PublicKey)
      → Extends log log'
      → Keyed recipient log prefix suffix key
      → Keyed recipient log' prefix suffix key
  Keyed-Extends recipient log log' prefix suffix key ext k = record {
    recipient_pk = k.recipient_pk;
    first = ext _ k.first;
    second = ext _ k.second;
    known = k.known;
    derived = ext _ k.derived;
  }

  abbrev pub PaysOk : String → ℕ → List (Event D) → Fallible PaymentToken → Type 0
  PaysOk recipient amount log (ok token) = Pays recipient amount log token
  PaysOk recipient amount log (err _) = Unit

  abbrev FinishedOk :
      CreateActionResult D → List (Event D) → List (Event D) → Fallible (List ℕ) → Type 0
  FinishedOk created log log' (ok tx) = Extends log log' × Finished log' created tx
  FinishedOk created log log' (err _) = Unit

  finished-FinishedOk :
      (created : CreateActionResult D) (log : List (Event D)) (tx : Option (List ℕ))
      (signable : Option (List ℕ × List ℕ))
      → created.tx ≡ tx
      → created.signable_transaction ≡ signable
      → AllRuns (FinishedOk created log) log (finished D client tx signable)
  unfolding bind
  finished-FinishedOk created log (some tx) signable h h' = ((λ e m. m), inl h)
  finished-FinishedOk created log none none h h' = tt
  finished-FinishedOk created log none (some (reference, unsigned)) h h' = elim [
    | err e ↦ tt
    | ok none ↦ tt
    | ok (some tx) ↦ ((λ e m. Memᴰ.tail m), inr (reference, unsigned, h', Memᴰ.head refl))
  ]

  abbrev Locks : PublicKey → Fallible (List ℕ) → Type 0
  Locks key (ok bytes) =
      (lock : LockingScript) × (p2pkh_lock (to_hash key) ≡ ok lock)
      × (from_hex (script_to_hex lock) ≡ ok bytes)
  Locks key (err _) = Unit

  scripted :
      (key : PublicKey) (log : List (Event D)) (lock : LockingScript)
      → p2pkh_lock (to_hash key) ≡ ok lock
      → (g : String → MessageBoxError) (r : Result (List ℕ) String)
      → from_hex (script_to_hex lock) ≡ r
      → (log ≡ log) × Locks key (map_err g r)
  scripted key log lock locked g (ok bytes) e = (refl, (lock, locked, e))
  scripted key log lock locked g (err _) e = (refl, tt)

  token_lock-Locks :
      (key : PublicKey) (log : List (Event D))
      → AllRuns (λ log' r. (log' ≡ log) × Locks key r) log (token_lock D key)
  token_lock-Locks key log =
      AllRuns-of_result (λ log' r. (log' ≡ log) × Locks key r) log _ (p2pkh_lock (to_hash key)) _
        (λ lock locked. scripted key log lock locked _ (from_hex (script_to_hex lock)) refl)
        (λ e. (refl, tt))

  module _ (recipient : String) (amount : ℕ) where
    made-Pays :
        (prefix suffix : String) (key : PublicKey) (lock : LockingScript) (script : List ℕ)
        (custom : String) (log : List (Event D))
        → Keyed recipient log prefix suffix key
        → p2pkh_lock (to_hash key) ≡ ok lock
        → from_hex (script_to_hex lock) ≡ ok script
        → custom_instructions_json (instructions D prefix suffix recipient) ≡ ok custom
        → AllRuns (PaysOk recipient amount) log (
            of_call wallet
              (perform (create_action (token_args D script amount custom) client.originator))
            >>= λ created. finished D client created.tx created.signable_transaction >>= λ tx. ret (
                ok (record {
                  custom_instructions = instructions D prefix suffix recipient;
                  transaction = tx;
                  amount = amount;
                  output_index = none;
                })))
    unfolding bind
    made-Pays prefix suffix key lock script custom log keyed locked hashed told = elim [
      | err e ↦ tt
      | ok created ↦
          let action = create_action (token_args D script amount custom) client.originator in
          AllRuns-then (FinishedOk created ((action, ok created) ∷ log)) (PaysOk recipient amount)
            ((action, ok created) ∷ log) (finished D client created.tx created.signable_transaction)
            _ (finished-FinishedOk created _ created.tx created.signable_transaction refl refl)
            (λ end tx (ext, finish). record {
              prefix = prefix;
              suffix = suffix;
              key = key;
              lock = lock;
              script = script;
              custom = custom;
              created = created;
              keyed =
                  Keyed-Extends recipient log end prefix suffix key (λ e m. ext e (Memᴰ.tail m))
                    keyed;
              locked = locked;
              hashed = hashed;
              told = told;
              made = ext _ (Memᴰ.head refl);
              finish = finish;
              worth = refl;
              derivation = refl;
              unindexed = refl;
            })
            (λ end e h. tt)
    ]

    pay_to-Pays :
        (prefix suffix : String) (key : PublicKey) (log : List (Event D))
        → Keyed recipient log prefix suffix key
        → AllRuns (PaysOk recipient amount) log (pay_to D client recipient amount prefix suffix key)
    pay_to-Pays prefix suffix key log keyed =
        AllRuns-then (λ log' r. (log' ≡ log) × Locks key r) (PaysOk recipient amount) log
          (token_lock D key) _ (token_lock-Locks key log)
          (λ log' script (same, (lock, locked, hashed)).
            AllRuns-of_result (PaysOk recipient amount) log' json _ _
              (λ custom told.
                made-Pays prefix suffix key lock script custom log' (rw same keyed) locked hashed
                  told)
              (λ e. tt))
          (λ log' e h. tt)

    derive-Pays :
        (prefix suffix : String) (log : List (Event D))
        → Memᴰ (create_nonce, ok prefix) log
        → Memᴰ (create_nonce, ok suffix) log
        → AllRuns (PaysOk recipient amount) log (
            of_result wallet (public_key_from_string recipient) >>= λ recipient_pk.
            of_call wallet
              (perform (get_public_key (fee_key D prefix suffix recipient_pk) client.originator))
            >>= λ key. pay_to D client recipient amount prefix suffix key)
    unfolding bind
    derive-Pays prefix suffix log first second =
        AllRuns-of_result (PaysOk recipient amount) log wallet (public_key_from_string recipient) _
          (λ pk known. elim [
            | err e ↦ tt
            | ok key ↦ pay_to-Pays prefix suffix key _ (record {
              recipient_pk = pk;
              first = Memᴰ.tail first;
              second = Memᴰ.tail second;
              known = known;
              derived = Memᴰ.head refl;
            })
          ])
          (λ e. tt)

    pub create_payment_token-Pays :
        (log : List (Event D))
        → AllRuns (PaysOk recipient amount) log (create_payment_token D client recipient amount)
    unfolding create_payment_token bind
    create_payment_token-Pays log = elim [
      | err e ↦ tt
      | ok prefix ↦ elim [
        | err e ↦ tt
        | ok suffix ↦ derive-Pays prefix suffix _ (Memᴰ.tail (Memᴰ.head refl)) (Memᴰ.head refl)
      ]
    ]
