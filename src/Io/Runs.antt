-- ===== src/Io/Runs.antt =====
-- Properties of every run of a program, and runs against a given other side.
use mathlib.Core.List.{Memᴰ}
use rust_messagebox_client.Prelude.{String, ◌≡◌, refl, List, ◌∷◌}
use rust_messagebox_client.Error.{Result, ok, err, MessageBoxError, Fallible}
use rust_messagebox_client.Deps.{Deps}
use rust_messagebox_client.Io.{Call, Reply, Prog, ret, call, bind, Io, of_result, of_call, ◌>>=◌}

-- A call and the reply to it; a log lists them newest first.
abbrev pub Event : Deps → Type 0
Event D = (c : Call D) × Reply D c

module _ {D : Deps} where
  -- `P` holds of the log and the result at the end of every run that starts from a log.
  abbrev pub AllRuns {ℓ κ} :
      {A : Type ℓ} → (List (Event D) → A → Type κ) → List (Event D) → Prog D A → Type κ
  AllRuns P log (ret a) = P log a
  AllRuns P log (call c k) = (r : Reply D c) → AllRuns P ((c, r) ∷ log) (k r)

  pub AllRuns-bind {ℓ κ μ ν} :
      {A : Type ℓ} {B : Type κ} (Q : List (Event D) → A → Type μ) (P : List (Event D) → B → Type ν)
      (log : List (Event D)) (m : Prog D A) (f : A → Prog D B)
      → AllRuns Q log m
      → ((log' : List (Event D)) (a : A) → Q log' a → AllRuns P log' (f a))
      → AllRuns P log (bind m f)
  unfolding bind
  AllRuns-bind Q P log (ret a) f hm hf = hf log a hm
  AllRuns-bind Q P log (call c k) f hm hf = λ r. AllRuns-bind Q P ((c, r) ∷ log) (k r) f (hm r) hf

  pub AllRuns-weaken {ℓ κ μ} :
      {A : Type ℓ} (Q : List (Event D) → A → Type κ) (P : List (Event D) → A → Type μ)
      (log : List (Event D)) (m : Prog D A)
      → AllRuns Q log m
      → ((log' : List (Event D)) (a : A) → Q log' a → P log' a)
      → AllRuns P log m
  AllRuns-weaken Q P log (ret a) hm h = h log a hm
  AllRuns-weaken Q P log (call c k) hm h = λ r. AllRuns-weaken Q P ((c, r) ∷ log) (k r) (hm r) h

  pub AllRuns-and {ℓ κ μ} :
      {A : Type ℓ} (P : List (Event D) → A → Type κ) (Q : List (Event D) → A → Type μ)
      (log : List (Event D)) (m : Prog D A)
      → AllRuns P log m
      → AllRuns Q log m
      → AllRuns (λ log' a. P log' a × Q log' a) log m
  AllRuns-and P Q log (ret a) p q = (p, q)
  AllRuns-and P Q log (call c k) p q = λ r. AllRuns-and P Q ((c, r) ∷ log) (k r) (p r) (q r)

  -- What holds of every log and every result holds of every run.
  pub AllRuns-always {ℓ κ} :
      {A : Type ℓ} (P : List (Event D) → A → Type κ) (log : List (Event D)) (m : Prog D A)
      → ((log' : List (Event D)) (a : A) → P log' a)
      → AllRuns P log m
  AllRuns-always P log (ret a) h = h log a
  AllRuns-always P log (call c k) h = λ r. AllRuns-always P ((c, r) ∷ log) (k r) h

  -- What is in a log stays there.
  abbrev pub Extends : List (Event D) → List (Event D) → Type 0
  Extends log log' = (e : Event D) → Memᴰ e log → Memᴰ e log'

  Extends-runs {ℓ} :
      {A : Type ℓ} (before log : List (Event D)) (m : Prog D A)
      → Extends before log
      → AllRuns (λ log' _. Extends before log') log m
  Extends-runs before log (ret a) h = h
  Extends-runs before log (call c k) h =
      λ r. Extends-runs before ((c, r) ∷ log) (k r) (λ e m. Memᴰ.tail (h e m))

  pub AllRuns-Extends {ℓ} :
      {A : Type ℓ} (log : List (Event D)) (m : Prog D A)
      → AllRuns (λ log' _. Extends log log') log m
  AllRuns-Extends log m = Extends-runs log log m (λ e m. m)

  -- A step `of_result g r >>= f`: the rest may use that `r` is a success.
  pub AllRuns-of_result {ℓ κ μ} :
      {A : Type ℓ} {B : Type κ} (P : List (Event D) → Fallible B → Type μ) (log : List (Event D))
      (g : String → MessageBoxError) (r : Result A String) (f : A → Io D B)
      → ((a : A) → r ≡ ok a → AllRuns P log (f a))
      → ((e : MessageBoxError) → P log (err e))
      → AllRuns P log (of_result g r >>= f)
  unfolding bind
  AllRuns-of_result P log g (ok a) f hf he = hf a refl
  AllRuns-of_result P log g (err e) f hf he = he (g e)

  -- A step `ret r >>= f`.
  pub AllRuns-value {ℓ κ μ} :
      {A : Type ℓ} {B : Type κ} (P : List (Event D) → Fallible B → Type μ) (log : List (Event D))
      (r : Fallible A) (f : A → Io D B)
      → ((a : A) → r ≡ ok a → AllRuns P log (f a))
      → ((e : MessageBoxError) → P log (err e))
      → AllRuns P log (ret r >>= f)
  unfolding bind
  AllRuns-value P log (ok a) f hf he = hf a refl
  AllRuns-value P log (err e) f hf he = he e

  -- A step `of_call g p >>= f`.
  pub AllRuns-of_call {ℓ κ μ ν} :
      {A : Type ℓ} {B : Type κ} (Q : List (Event D) → Result A String → Type ν)
      (P : List (Event D) → Fallible B → Type μ) (log : List (Event D))
      (g : String → MessageBoxError) (p : Prog D (Result A String)) (f : A → Io D B)
      → AllRuns Q log p
      → ((log' : List (Event D)) (a : A) → Q log' (ok a) → AllRuns P log' (f a))
      → ((log' : List (Event D)) (e : String) → Q log' (err e) → P log' (err (g e)))
      → AllRuns P log (of_call g p >>= f)
  unfolding bind
  AllRuns-of_call Q P log g (ret (ok a)) f h hf he = hf log a h
  AllRuns-of_call Q P log g (ret (err e)) f h hf he = he log e h
  AllRuns-of_call Q P log g (call c k) f h hf he =
      λ r. AllRuns-of_call Q P ((c, r) ∷ log) g (k r) f (h r) hf he

  -- A step `m >>= f` of any other kind.
  pub AllRuns-then {ℓ κ μ ν} :
      {A : Type ℓ} {B : Type κ} (Q : List (Event D) → Fallible A → Type ν)
      (P : List (Event D) → Fallible B → Type μ) (log : List (Event D)) (m : Io D A)
      (f : A → Io D B)
      → AllRuns Q log m
      → ((log' : List (Event D)) (a : A) → Q log' (ok a) → AllRuns P log' (f a))
      → ((log' : List (Event D)) (e : MessageBoxError) → Q log' (err e) → P log' (err e))
      → AllRuns P log (m >>= f)
  unfolding bind
  AllRuns-then Q P log (ret (ok a)) f h hf he = hf log a h
  AllRuns-then Q P log (ret (err e)) f h hf he = he log e h
  AllRuns-then Q P log (call c k) f h hf he =
      λ r. AllRuns-then Q P ((c, r) ∷ log) (k r) f (h r) hf he

  -- The run in which each call is answered by a function of the calls before it.
  unfoldable pub run {ℓ} :
      {A : Type ℓ}
      → (List (Event D) → (c : Call D) → Reply D c)
      → List (Event D)
      → Prog D A
      → A × List (Event D)
  run answer log (ret a) = (a, log)
  run answer log (call c k) = let r = answer log c in run answer ((c, r) ∷ log) (k r)

module _ {D : Deps} (answer : List (Event D) → (c : Call D) → Reply D c) where
  -- `P` holds at the end of the run in which each call gets this answer.
  abbrev pub RunsWith {ℓ κ} :
      {A : Type ℓ} → (List (Event D) → A → Type κ) → List (Event D) → Prog D A → Type κ
  RunsWith P log (ret a) = P log a
  RunsWith P log (call c k) = (r : Reply D c) → answer log c ≡ r → RunsWith P ((c, r) ∷ log) (k r)

  pub RunsWith-run {ℓ κ} :
      {A : Type ℓ} (P : List (Event D) → A → Type κ) (log : List (Event D)) (m : Prog D A)
      → RunsWith P log m
      → P (run answer log m).1 (run answer log m).0
  unfolding run
  RunsWith-run P log (ret a) h = h
  RunsWith-run P log (call c k) h =
      RunsWith-run P ((c, answer log c) ∷ log) (k (answer log c)) (h (answer log c) refl)

  pub AllRuns-RunsWith {ℓ κ} :
      {A : Type ℓ} (P : List (Event D) → A → Type κ) (log : List (Event D)) (m : Prog D A)
      → AllRuns P log m
      → RunsWith P log m
  AllRuns-RunsWith P log (ret a) h = h
  AllRuns-RunsWith P log (call c k) h = λ r e. AllRuns-RunsWith P ((c, r) ∷ log) (k r) (h r)
