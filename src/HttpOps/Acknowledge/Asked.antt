-- ===== src/HttpOps/Acknowledge/Asked.antt =====
-- Which hosts an acknowledgement reached.
use mathlib.Core.List.{Memᴰ}
use rust_messagebox_client.Prelude.{
  ℕ, String, ◌<>◌, ◌≡◌, refl, Bool, true, false, some, List, [], ◌∷◌, length, ◌==◌, any, Bool-cases,
  inl, inr, if◌then◌else◌,
}
use rust_messagebox_client.Error.{ok, err, Fallible, json, http}
use rust_messagebox_client.Deps.{Deps}
use rust_messagebox_client.Io.{Response, ret, bind, fetch, ◌>>=◌}
use rust_messagebox_client.Io.Runs.{
  Event, AllRuns, Extends, AllRuns-Extends, AllRuns-weaken, AllRuns-and, AllRuns-bind,
  AllRuns-of_result,
}
use rust_messagebox_client.Client.Http.{json_headers, is_failure, post_json, check_status_error}
use rust_messagebox_client.HttpOps.Acknowledge.{
  is_ok, acknowledge_message_on_host, acknowledge_on_all, acknowledge_on_hosts,
}

module _ (D : Deps) (message_ids : List String) where
  -- A host answered the POST of the ids with a success and no logical error.
  abbrev pub Acknowledged : List (Event D) → String → Type 0
  Acknowledged log host =
      (bytes : List ℕ) × (response : Response) × (D.acknowledge_message_params message_ids
        ≡ ok bytes)
      × (is_failure response.status ≡ false)
      × (check_status_error D response.body ≡ ok tt)
      × Memᴰ (fetch (host <> "/acknowledgeMessage") "POST" (some bytes) json_headers, ok response)
          log

  abbrev pub Outcome : String → List (Event D) → Fallible (Unit {0}) → Type 0
  Outcome host log (ok _) = Acknowledged log host
  Outcome host log (err _) = Unit

  judged :
      (host : String) (bytes : List ℕ) (response : Response) (log : List (Event D))
      → D.acknowledge_message_params message_ids ≡ ok bytes
      → is_failure response.status ≡ false
      → Memᴰ
          (fetch (host <> "/acknowledgeMessage") "POST" (some bytes) json_headers, ok response)
          log
      → (r : Fallible (Unit {0})) → check_status_error D response.body ≡ r
      → Outcome host log r
  judged host bytes response log encoded success seen (ok u) h =
      (bytes, response, encoded, success, h, seen)
  judged host bytes response log encoded success seen (err e) h = tt

  replied :
      (host : String) (bytes : List ℕ) (response : Response) (log : List (Event D)) (failed : Bool)
      → D.acknowledge_message_params message_ids ≡ ok bytes
      → Memᴰ
          (fetch (host <> "/acknowledgeMessage") "POST" (some bytes) json_headers, ok response)
          log
      → is_failure response.status ≡ failed
      → AllRuns (Outcome host) log (
          (if failed
            then ret (err (http response.status (host <> "/acknowledgeMessage")))
            else ret (ok response))
          >>= λ response. ret (check_status_error D response.body))
  unfolding bind
  replied host bytes response log true encoded seen h = tt
  replied host bytes response log false encoded seen h =
      judged host bytes response log encoded h seen (check_status_error D response.body) refl

  pub on_host-Outcome :
      (host : String) (log : List (Event D))
      → AllRuns (Outcome host) log (acknowledge_message_on_host D message_ids host)
  unfolding acknowledge_message_on_host post_json bind
  on_host-Outcome host log =
      AllRuns-of_result (Outcome host) log json (D.acknowledge_message_params message_ids) _
        (λ bytes encoded. elim [
          | ok response ↦
              replied host bytes response _ (is_failure response.status) encoded (Memᴰ.head refl)
                refl
          | err e ↦ tt
        ])
        (λ e. tt)

  Acknowledged-Extends :
      (host : String) (log log' : List (Event D))
      → Extends log log'
      → Acknowledged log host
      → Acknowledged log' host
  Acknowledged-Extends host log log' ext (bytes, response, encoded, success, checked, seen) =
      (bytes, response, encoded, success, checked, ext _ seen)

  -- One of the hosts acknowledged.
  abbrev pub Somewhere : List String → List (Event D) → Type 0
  Somewhere hosts log = (host : String) × Memᴰ host hosts × Acknowledged log host

  abbrev Succeeds : List String → List (Event D) → List (Fallible (Unit {0})) → Type 0
  Succeeds hosts log outcomes = any is_ok outcomes ≡ true → Somewhere hosts log

  Succeeds-cons :
      (host : String) (hosts : List String) (log log' : List (Event D))
      (outcome : Fallible (Unit {0})) (outcomes : List (Fallible (Unit {0})))
      → Extends log log'
      → Outcome host log outcome
      → Succeeds hosts log' outcomes
      → Succeeds (host ∷ hosts) log' (outcome ∷ outcomes)
  Succeeds-cons host hosts log log' (ok u) outcomes ext here rest h =
      (host, Memᴰ.head refl, Acknowledged-Extends host log log' ext here)
  Succeeds-cons host hosts log log' (err e) outcomes ext here rest h =
      let (other, among, acknowledged) = rest h in (other, Memᴰ.tail among, acknowledged)

  on_all-Succeeds :
      (hosts : List String) (log : List (Event D))
      → AllRuns
          (λ log' outcomes. Extends log log' × Succeeds hosts log' outcomes)
          log
          (acknowledge_on_all D message_ids hosts)
  unfolding acknowledge_on_all
  on_all-Succeeds [] log = ((λ e m. m), (λ h. cc))
  on_all-Succeeds (host ∷ hosts) log =
      AllRuns-bind (λ log' outcome. Extends log log' × Outcome host log' outcome)
        (λ log' outcomes. Extends log log' × Succeeds (host ∷ hosts) log' outcomes) log
        (acknowledge_message_on_host D message_ids host) _
        (AllRuns-and _ _ log _ (AllRuns-Extends log _) (on_host-Outcome host log))
        (λ log1 outcome (ext1, here).
          AllRuns-bind (λ log' outcomes. Extends log1 log' × Succeeds hosts log' outcomes)
            (λ log' outcomes. Extends log log' × Succeeds (host ∷ hosts) log' outcomes) log1
            (acknowledge_on_all D message_ids hosts) _ (on_all-Succeeds hosts log1)
            (λ log2 outcomes (ext2, rest). (
              (λ e m. ext2 e (ext1 e m)),
              Succeeds-cons host hosts log1 log2 outcome outcomes ext2 here rest,
            )))

  abbrev pub Reached : String → List String → List (Event D) → Fallible (Unit {0}) → Type 0
  Reached default_host hosts log (ok _) = Somewhere (default_host ∷ hosts) log
  Reached default_host hosts log (err _) = Unit

  any_success-Reached :
      (message default_host : String) (hosts : List String) (log : List (Event D))
      (outcomes : List (Fallible (Unit {0}))) (b : Bool)
      → any is_ok outcomes ≡ b
      → Succeeds hosts log outcomes
      → Reached default_host hosts log (if b then ok tt else err (http 0 message))
  any_success-Reached message default_host hosts log outcomes true h s =
      let (host, among, acknowledged) = s h in (host, Memᴰ.tail among, acknowledged)
  any_success-Reached message default_host hosts log outcomes false h s = tt

  single-Reached :
      (default_host : String) (hosts : List String) (log : List (Event D)) (r : Fallible (Unit {0}))
      → Outcome default_host log r
      → Reached default_host hosts log r
  single-Reached default_host hosts log (ok u) h = (default_host, Memᴰ.head refl, h)
  single-Reached default_host hosts log (err e) h = tt

  -- In every run of an acknowledgement that succeeds, one host of the set, or the default host,
  -- answered the POST of the message ids with a success status and no logical error.
  pub acknowledge_on_hosts-Reached :
      (message default_host : String) (host_set : List String) (log : List (Event D))
      → AllRuns
          (Reached default_host host_set)
          log
          (acknowledge_on_hosts D message_ids message default_host host_set)
  unfolding acknowledge_on_hosts
  acknowledge_on_hosts-Reached message default_host host_set log =
      elim (Bool-cases (length host_set == 1)) [
        | inl e ↦ rw e (
            AllRuns-weaken (Outcome default_host) (Reached default_host host_set) log _
              (on_host-Outcome default_host log)
              (λ log' r h. single-Reached default_host host_set log' r h))
        | inr e ↦ rw e (
            AllRuns-bind (λ log' outcomes. Extends log log' × Succeeds host_set log' outcomes)
              (Reached default_host host_set) log (acknowledge_on_all D message_ids host_set) _
              (on_all-Succeeds host_set log)
              (λ log' outcomes (ext, s).
                any_success-Reached message default_host host_set log' outcomes (any is_ok outcomes)
                  refl s))
      ]
