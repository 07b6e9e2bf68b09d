-- ===== src/HttpOps/Fees/Covers.antt =====
-- That a payment covers the fees that are due, output by output.
use mathlib.Core.List.{Memᴰ}
use rust_messagebox_client.Prelude.{
  ℕ, suc, ◌+◌, ◌%◌, ◌^◌, String, ◌≡◌, refl, Bool, true, false, Option, none, some, List, [], ◌∷◌,
  ◌++◌, arith, length,
}
use rust_messagebox_client.Error.{Result, ok, err, Fallible, wallet, ok_or, map_err}
use rust_messagebox_client.Types.{MessagePayment}
use rust_messagebox_client.Deps.{Deps}
use rust_messagebox_client.Io.{
  anyone_identity_key, create_action, CreateActionResult, Io, ret, bind, ◌>>=◌,
}
use rust_messagebox_client.Io.Runs.{Event, Extends, AllRuns, AllRuns-then, AllRuns-of_call}
use rust_messagebox_client.Session.{Client}
use rust_messagebox_client.Session.Own.{IsOwnKey, IsOwnKey-Extends}
use rust_messagebox_client.HttpOps.Fees.{
  FeeOutput, anyone_sender, pushed_if, payment_args, payment_of, pay,
}
use rust_messagebox_client.HttpOps.Fees.Paid.{Due, Pays, Pays-Extends, Made, Sender}

module _ (D : Deps) (client : Client) where
  -- The sender that the relay is told: the client, or anyone.
  abbrev pub SentBy : Bool → List (Event D) → String → Type 0
  SentBy true log s = IsOwnKey D client log s
  SentBy false log s =
      (public_key : D.PublicKey) × Memᴰ (anyone_identity_key, ok public_key) log
      × (s ≡ D.to_der_hex public_key)

  pub SentBy-Extends :
      (own : Bool) (log log' : List (Event D)) (s : String)
      → Extends log log'
      → SentBy own log s
      → SentBy own log' s
  SentBy-Extends true log log' s ext h = IsOwnKey-Extends D client log log' s ext h
  SentBy-Extends false log log' s ext (k, seen, same) = (k, ext _ seen, same)

  -- The outputs pay the fees, in their order, and are numbered in a row.
  abbrev pub PaysAll : List (Event D) → ℕ → List (Due D client) → List (FeeOutput D) → Type 0
  PaysAll log i [] [] = Unit
  PaysAll log i [] (o ∷ os) = ⊥
  PaysAll log i (due ∷ dues) [] = ⊥
  PaysAll log i (due ∷ dues) (o ∷ os) =
      Pays D client log due (i % 2 ^ 32) o
      × SentBy due.own log o.1.sender_identity_key
      × PaysAll log (suc i) dues os

  pub PaysAll-Extends :
      (log log' : List (Event D)) (i : ℕ) (dues : List (Due D client)) (os : List (FeeOutput D))
      → Extends log log'
      → PaysAll log i dues os
      → PaysAll log' i dues os
  PaysAll-Extends log log' i [] [] ext h = tt
  PaysAll-Extends log log' i [] (o ∷ os) ext h = h
  PaysAll-Extends log log' i (due ∷ dues) [] ext h = h
  PaysAll-Extends log log' i (due ∷ dues) (o ∷ os) ext (p, s, rest) = (
    Pays-Extends D client log log' due (i % 2 ^ 32) o ext p,
    SentBy-Extends due.own log log' o.1.sender_identity_key ext s,
    PaysAll-Extends log log' (suc i) dues os ext rest,
  )

  abbrev pub PaysOk :
      ℕ
      → List (Due D client)
      → List (Event D)
      → List (Event D)
      → Fallible (List (FeeOutput D))
      → Type 0
  PaysOk i dues log log' (ok os) = Extends log log' × PaysAll log' i dues os
  PaysOk i dues log log' (err _) = Unit

  abbrev pub due_if : Bool → Due D client → List (Due D client)
  due_if true due = due ∷ []
  due_if false due = []

  pub pushed_if-PaysOk :
      (b : Bool) (due : Due D client) (i : ℕ) (make : Io D (FeeOutput D)) (log : List (Event D))
      → AllRuns (Made D client (SentBy due.own) due (i % 2 ^ 32) log) log make
      → AllRuns (PaysOk i (due_if b due) log) log (pushed_if D b make)
  pushed_if-PaysOk false due i make log h = ((λ e m. m), tt)
  pushed_if-PaysOk true due i make log h =
      AllRuns-then (Made D client (SentBy due.own) due (i % 2 ^ 32) log) (PaysOk i (due ∷ []) log)
        log make _ h (λ log' o (ext, p, s). (ext, (p, s, tt))) (λ log' e u. tt)

  pub PaysAll-append :
      (log : List (Event D)) (i j : ℕ) (ds es : List (Due D client)) (os ps : List (FeeOutput D))
      → j ≡ i + length os
      → PaysAll log i ds os
      → PaysAll log j es ps
      → PaysAll log i (ds ++ es) (os ++ ps)
  PaysAll-append log i j [] es [] ps e h k = let same : i ≡ j = omega arith in rw same k
  PaysAll-append log i j [] es (o ∷ os) ps e h k = absurd h
  PaysAll-append log i j (d ∷ ds) es [] ps e h k = absurd h
  PaysAll-append log i j (d ∷ ds) es (o ∷ os) ps e (p, s, rest) k =
      (p, s, PaysAll-append log (suc i) j ds es os ps (omega arith) rest k)

  -- The wallet made one transaction with outputs for all the fees, and the payment is that.
  pub record Covers (log : List (Event D)) (description : String) (dues : List (Due D client))
      (payment : MessagePayment) : Type 0 where
    pub outputs : List (FeeOutput D)
    pub tx : List ℕ
    pub created : CreateActionResult D
    pub made :
        Memᴰ (create_action (payment_args D description outputs) client.originator, ok created) log
    pub complete : created.tx ≡ some tx
    pub same : payment ≡ payment_of D tx outputs
    pub pays : PaysAll log 0 dues outputs

  abbrev pub CoversOk :
      String → List (Due D client) → List (Event D) → Fallible MessagePayment → Type 0
  CoversOk description dues log (ok payment) = Covers log description dues payment
  CoversOk description dues log (err _) = Unit

  paid_with :
      (description : String) (dues : List (Due D client)) (outputs : List (FeeOutput D))
      (log : List (Event D)) (created : CreateActionResult D) (tx : Option (List ℕ))
      → Memᴰ (create_action (payment_args D description outputs) client.originator, ok created) log
      → created.tx ≡ tx
      → PaysAll log 0 dues outputs
      → AllRuns (CoversOk description dues) log (
          ret (ok_or (wallet "create_action returned no tx") tx) >>= λ t.
          ret (ok (payment_of D t outputs)))
  unfolding bind
  paid_with description dues outputs log created none made e pays = tt
  paid_with description dues outputs log created (some tx) made e pays = record {
    outputs = outputs;
    tx = tx;
    created = created;
    made = made;
    complete = e;
    same = refl;
    pays = pays;
  }

  pub pay-CoversOk :
      (description : String) (dues : List (Due D client)) (outputs : List (FeeOutput D))
      (log : List (Event D))
      → PaysAll log 0 dues outputs
      → AllRuns (CoversOk description dues) log (pay D client description outputs)
  unfolding pay
  pay-CoversOk description dues outputs log pays =
      AllRuns-of_call
        (λ log' r.
          log' ≡ (create_action (payment_args D description outputs) client.originator, r) ∷ log)
        (CoversOk description dues) log wallet _ _ (λ r. refl)
        (λ log' created last.
          paid_with description dues outputs log' created created.tx (rw last (Memᴰ.head refl)) refl
            (PaysAll-Extends log log' 0 dues outputs (λ e m. rw last (Memᴰ.tail m)) pays))
        (λ log' e last. tt)

  abbrev IsAnyone : List (Event D) → List (Event D) → Fallible String → Type 0
  IsAnyone log log' r = Sender D client (SentBy false) log log' r

  received-IsAnyone :
      (log : List (Event D)) (r : Result D.PublicKey String)
      → AllRuns
          (IsAnyone log)
          ((anyone_identity_key, r) ∷ log)
          (ret (map_err wallet r) >>= λ k. ret (ok (D.to_der_hex k)))
  unfolding bind
  received-IsAnyone log (ok k) = ((λ e m. Memᴰ.tail m), (k, Memᴰ.head refl, refl))
  received-IsAnyone log (err e) = tt

  pub anyone_sender-SentBy : (log : List (Event D)) → AllRuns (IsAnyone log) log (anyone_sender D)
  unfolding bind
  anyone_sender-SentBy log = λ r. received-IsAnyone log r
