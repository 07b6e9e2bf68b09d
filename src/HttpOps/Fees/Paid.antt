-- ===== src/HttpOps/Fees/Paid.antt =====
-- What an output of a fee is: who can spend it, and how it is described to the relay.
use mathlib.Core.List.{Memᴰ}
use rust_messagebox_client.Prelude.{ℕ, String, ◌<>◌, ◌≡◌, refl, Bool, true, false, List, ◌∷◌}
use rust_messagebox_client.Error.{Result, ok, err, Fallible, wallet, map_err}
use rust_messagebox_client.Deps.{Deps}
use rust_messagebox_client.Io.{KeyArgs, get_public_key, anyone_public_key, Prog, Io, bind}
use rust_messagebox_client.Io.Runs.{
  Event, Extends, AllRuns, AllRuns-then, AllRuns-of_result, AllRuns-of_call,
}
use rust_messagebox_client.Session.{Client}
use rust_messagebox_client.HttpOps.Fees.{FeeOutput, fee_key, lock_to, make_fee, own_key, anyone_key}

module _ (D : Deps) (client : Client) where
  open D use {
    PublicKey, LockingScript, public_key_from_string, to_hash, to_der_hex, p2pkh_lock,
    script_to_hex, from_hex, as_bytes,
  }

  -- Which wallet derived a key: the client's, or the one that anyone has.
  abbrev pub DerivedBy : Bool → List (Event D) → KeyArgs D → PublicKey → Type 0
  DerivedBy true log args key = Memᴰ (get_public_key args client.originator, ok key) log
  DerivedBy false log args key = Memᴰ (anyone_public_key args, ok key) log

  -- A fee that is due: of whose wallet, to whom, and how much.
  pub record Due : Type 0 where
    pub own : Bool
    pub payee : String
    pub amount : ℕ

  -- The output pays the fee to a key that the payee derives from the prefix and the suffix that the
  -- relay is told.
  pub record Pays (log : List (Event D)) (due : Due) (index : ℕ) (o : FeeOutput D) : Type 0 where
    pub prefix : String
    pub suffix : String
    pub counterparty : PublicKey
    pub key : PublicKey
    pub lock : LockingScript
    pub known : public_key_from_string due.payee ≡ ok counterparty
    pub derived : DerivedBy due.own log (fee_key D prefix suffix counterparty) key
    pub locked : p2pkh_lock (to_hash key) ≡ ok lock
    pub script : from_hex (script_to_hex lock) ≡ ok o.0.locking_script
    pub amount : o.0.satoshis ≡ due.amount
    pub numbered : o.1.output_index ≡ index
    pub told_prefix : o.1.derivation_prefix ≡ as_bytes prefix
    pub told_suffix : o.1.derivation_suffix ≡ as_bytes suffix

  DerivedBy-Extends :
      (own : Bool) (log log' : List (Event D)) (args : KeyArgs D) (key : PublicKey)
      → Extends log log'
      → DerivedBy own log args key
      → DerivedBy own log' args key
  DerivedBy-Extends true log log' args key ext h = ext _ h
  DerivedBy-Extends false log log' args key ext h = ext _ h

  pub Pays-Extends :
      (log log' : List (Event D)) (due : Due) (index : ℕ) (o : FeeOutput D)
      → Extends log log'
      → Pays log due index o
      → Pays log' due index o
  Pays-Extends log log' due index o ext p = record {
    prefix = p.prefix;
    suffix = p.suffix;
    counterparty = p.counterparty;
    key = p.key;
    lock = p.lock;
    known = p.known;
    derived = DerivedBy-Extends due.own log log' _ p.key ext p.derived;
    locked = p.locked;
    script = p.script;
    amount = p.amount;
    numbered = p.numbered;
    told_prefix = p.told_prefix;
    told_suffix = p.told_suffix;
  }

  -- The sender that the relay is told satisfies `F`.
  abbrev pub Made :
      (List (Event D) → String → Type 0)
      → Due
      → ℕ
      → List (Event D)
      → List (Event D)
      → Fallible (FeeOutput D)
      → Type 0
  Made F due index log log' (ok o) =
      Extends log log' × Pays log' due index o × F log' o.1.sender_identity_key
  Made F due index log log' (err _) = Unit

  abbrev pub Sender :
      (List (Event D) → String → Type 0)
      → List (Event D)
      → List (Event D)
      → Fallible String
      → Type 0
  Sender F log log' (ok s) = Extends log log' × F log' s
  Sender F log log' (err _) = Unit

  abbrev Locks : PublicKey → Fallible (List ℕ) → Type 0
  Locks key (ok bytes) =
      (lock : LockingScript) × (p2pkh_lock (to_hash key) ≡ ok lock)
      × (from_hex (script_to_hex lock) ≡ ok bytes)
  Locks key (err _) = Unit

  scripted :
      (key : PublicKey) (log : List (Event D)) (lock : LockingScript)
      → p2pkh_lock (to_hash key) ≡ ok lock
      → (r : Result (List ℕ) String) → from_hex (script_to_hex lock) ≡ r
      → (log ≡ log) × Locks key (map_err (λ e. wallet ("hex decode: " <> e)) r)
  scripted key log lock locked (ok bytes) e = (refl, (lock, locked, e))
  scripted key log lock locked (err _) e = (refl, tt)

  lock_to-Locks :
      (key : PublicKey) (log : List (Event D))
      → AllRuns (λ log' r. (log' ≡ log) × Locks key r) log (lock_to D key)
  lock_to-Locks key log =
      AllRuns-of_result (λ log' r. (log' ≡ log) × Locks key r) log _ (p2pkh_lock (to_hash key)) _
        (λ lock locked. scripted key log lock locked (from_hex (script_to_hex lock)) refl)
        (λ e. (refl, tt))

  -- The wallet of a fee.
  abbrev pub deriver : Bool → KeyArgs D → Prog D (Result PublicKey String)
  deriver true = own_key D client
  deriver false = anyone_key D client

  abbrev Derived :
      Bool → List (Event D) → KeyArgs D → List (Event D) → Result PublicKey String → Type 0
  Derived own log args log' (ok key) = Extends log log' × DerivedBy own log' args key
  Derived own log args log' (err _) = Unit

  own-Derived :
      (args : KeyArgs D) (log : List (Event D)) (r : Result PublicKey String)
      → Derived true log args ((get_public_key args client.originator, r) ∷ log) r
  own-Derived args log (ok key) = ((λ e m. Memᴰ.tail m), Memᴰ.head refl)
  own-Derived args log (err _) = tt

  anyone-Derived :
      (args : KeyArgs D) (log : List (Event D)) (r : Result PublicKey String)
      → Derived false log args ((anyone_public_key args, r) ∷ log) r
  anyone-Derived args log (ok key) = ((λ e m. Memᴰ.tail m), Memᴰ.head refl)
  anyone-Derived args log (err _) = tt

  deriver-Derived :
      (own : Bool) (args : KeyArgs D) (log : List (Event D))
      → AllRuns (Derived own log args) log (deriver own args)
  deriver-Derived true args log = own-Derived args log
  deriver-Derived false args log = anyone-Derived args log

  module _ (F : List (Event D) → String → Type 0) (due : Due) (index : ℕ)
      (description : String) where
    pub make_fee-Made :
        (what : String) (sender : Io D String)
        → (log : List (Event D))
        → ((log' : List (Event D)) → Extends log log' → AllRuns (Sender F log') log' sender)
        → AllRuns
            (Made F due index log)
            log
            (make_fee D (deriver due.own) what due.payee due.amount description index sender)
    unfolding bind
    make_fee-Made what sender log sends = λ prefix_bytes suffix_bytes.
        let prefix = D.base64_encode prefix_bytes in
        let suffix = D.base64_encode suffix_bytes in
        let made = Made F due index log in
        AllRuns-of_result made _ (λ e. wallet (what <> e)) (public_key_from_string due.payee) _
          (λ pk known.
            AllRuns-of_call (Derived due.own _ (fee_key D prefix suffix pk)) made _ wallet _ _
              (deriver-Derived due.own (fee_key D prefix suffix pk) _)
              (λ log' key (ext, derived).
                AllRuns-then (λ log'' r. (log'' ≡ log') × Locks key r) made log' (lock_to D key) _
                  (lock_to-Locks key log')
                  (λ log'' lock_bytes (same, (lock, locked, script)).
                    let on : Extends log' log'' = λ e m. rw same m in
                    let from_start : Extends log log'' =
                      λ e m. on e (ext e (Memᴰ.tail (Memᴰ.tail m))) in
                    AllRuns-then (Sender F log'') made log'' sender _ (sends log'' from_start)
                      (λ end s (ext', f). (
                        (λ e m. ext' e (from_start e m)),
                        record {
                          prefix = prefix;
                          suffix = suffix;
                          counterparty = pk;
                          key = key;
                          lock = lock;
                          known = known;
                          derived =
                              DerivedBy-Extends due.own log' end (fee_key D prefix suffix pk) key
                                (λ e m. ext' e (on e m)) derived;
                          locked = locked;
                          script = script;
                          amount = refl;
                          numbered = refl;
                          told_prefix = refl;
                          told_suffix = refl;
                        },
                        f,
                      ))
                      (λ end e u. tt))
                  (λ log'' e u. tt))
              (λ log' e u. tt))
          (λ e. tt)
