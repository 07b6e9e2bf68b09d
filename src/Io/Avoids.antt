-- ===== src/Io/Avoids.antt =====
-- Programs that make no call of a kind, and the payments among the calls of a run.
use rust_messagebox_client.Prelude.{
  ℕ, String, Bool, true, false, ◌≡◌, refl, ◌∙◌, Option, List, [], ◌∷◌,
}
use rust_messagebox_client.Error.{Result, ok, err, MessageBoxError}
use rust_messagebox_client.Deps.{Deps}
use rust_messagebox_client.Io.{
  InternalizeActionArgs, Call, Reply, internalize_action, fetch, sleep_around, Prog, ret, call,
  bind, Io, of_call, ◌>>=◌,
}
use rust_messagebox_client.Io.Runs.{Event, AllRuns}

-- A call to internalize a payment: what was asked, for whom, and the wallet's verdict.
abbrev pub Payment : Deps → Type 0
Payment D = InternalizeActionArgs D × Option String × Result Bool String

module _ {D : Deps} where
  abbrev pub is_payment : Call D → Bool
  is_payment (internalize_action _ _) = true
  is_payment _ = false

  -- Newest first, as in the log.
  abbrev pub payments : List (Event D) → List (Payment D)
  payments [] = []
  payments ((internalize_action args originator, r) ∷ log) = (args, originator, r) ∷ payments log
  payments (_ ∷ log) = payments log

  -- No run makes a call on which the test holds.
  abbrev pub Avoids {ℓ} : {A : Type ℓ} → (Call D → Bool) → Prog D A → Type 0
  Avoids t (ret a) = Unit
  Avoids t (call c k) = (t c ≡ false) × ((r : Reply D c) → Avoids t (k r))

  pub Avoids-bind {ℓ κ} :
      {A : Type ℓ} {B : Type κ} (t : Call D → Bool) (m : Prog D A) (f : A → Prog D B)
      → Avoids t m
      → ((a : A) → Avoids t (f a))
      → Avoids t (bind m f)
  unfolding bind
  Avoids-bind t (ret a) f hm hf = hf a
  Avoids-bind t (call c k) f hm hf = (hm.0, λ r. Avoids-bind t (k r) f (hm.1 r) hf)

  pub Avoids-then {ℓ κ} :
      {A : Type ℓ} {B : Type κ} (t : Call D → Bool) (m : Io D A) (f : A → Io D B)
      → Avoids t m
      → ((a : A) → Avoids t (f a))
      → Avoids t (m >>= f)
  unfolding bind
  Avoids-then t (ret (ok a)) f hm hf = hf a
  Avoids-then t (ret (err e)) f hm hf = tt
  Avoids-then t (call c k) f hm hf = (hm.0, λ r. Avoids-then t (k r) f (hm.1 r) hf)

  pub Avoids-of_call {ℓ} :
      {A : Type ℓ} (t : Call D → Bool) (g : String → MessageBoxError) (p : Prog D (Result A String))
      → Avoids t p
      → Avoids t (of_call g p)
  Avoids-of_call t g p h = Avoids-bind t p _ h (λ r. tt)

  pub payments-other :
      (c : Call D) (r : Reply D c) (log : List (Event D))
      → is_payment c ≡ false
      → payments ((c, r) ∷ log) ≡ payments log
  payments-other (internalize_action _ _) r log h = cc
  payments-other _ r log h = refl

  payments-kept {ℓ} :
      {A : Type ℓ} (p : Prog D A) (known : List (Payment D)) (log : List (Event D))
      → Avoids is_payment p
      → payments log ≡ known
      → AllRuns (λ log' _. payments log' ≡ known) log p
  payments-kept (ret a) known log h e = e
  payments-kept (call c k) known log h e =
      λ r. payments-kept (k r) known ((c, r) ∷ log) (h.1 r) (payments-other c r log h.0 ∙ e)

  pub Avoids-payments {ℓ} :
      {A : Type ℓ} (p : Prog D A) (log : List (Event D))
      → Avoids is_payment p
      → AllRuns (λ log' _. payments log' ≡ payments log) log p
  Avoids-payments p log h = payments-kept p (payments log) log h refl

  -- Requests over HTTP and jittered sleeps.
  abbrev pub is_outer : Call D → Bool
  is_outer (fetch _ _ _ _) = true
  is_outer (sleep_around _) = true
  is_outer _ = false

  abbrev pub fetches : List (Event D) → List (Event D)
  fetches [] = []
  fetches ((fetch url method body headers, r) ∷ log) =
      (fetch url method body headers, r) ∷ fetches log
  fetches (_ ∷ log) = fetches log

  abbrev pub sleeps : List (Event D) → List ℕ
  sleeps [] = []
  sleeps ((sleep_around duration, r) ∷ log) = duration ∷ sleeps log
  sleeps (_ ∷ log) = sleeps log

  fetches-other :
      (c : Call D) (r : Reply D c) (log : List (Event D))
      → is_outer c ≡ false
      → fetches ((c, r) ∷ log) ≡ fetches log
  fetches-other (fetch _ _ _ _) r log h = cc
  fetches-other _ r log h = refl

  sleeps-other :
      (c : Call D) (r : Reply D c) (log : List (Event D))
      → is_outer c ≡ false
      → sleeps ((c, r) ∷ log) ≡ sleeps log
  sleeps-other (sleep_around _) r log h = cc
  sleeps-other _ r log h = refl

  -- What other calls do not change stays the same.
  kept {ℓ κ} :
      {A : Type ℓ} {B : Type κ} (view : List (Event D) → B)
      → ((c : Call D) (r : Reply D c) (log : List (Event D))
          → is_outer c ≡ false
          → view ((c, r) ∷ log) ≡ view log)
      → (p : Prog D A) (known : B) (log : List (Event D)) → Avoids is_outer p
      → view log ≡ known
      → AllRuns (λ log' _. view log' ≡ known) log p
  kept view other (ret a) known log h e = e
  kept view other (call c k) known log h e =
      λ r. kept view other (k r) known ((c, r) ∷ log) (h.1 r) (other c r log h.0 ∙ e)

  pub Avoids-fetches {ℓ} :
      {A : Type ℓ} (p : Prog D A) (log : List (Event D))
      → Avoids is_outer p
      → AllRuns (λ log' _. fetches log' ≡ fetches log) log p
  Avoids-fetches p log h = kept fetches fetches-other p (fetches log) log h refl

  pub Avoids-sleeps {ℓ} :
      {A : Type ℓ} (p : Prog D A) (log : List (Event D))
      → Avoids is_outer p
      → AllRuns (λ log' _. sleeps log' ≡ sleeps log) log p
  Avoids-sleeps p log h = kept sleeps sleeps-other p (sleeps log) log h refl
