-- ===== src/HttpOps/Send/Delivered.antt =====
-- What a successful send says of the run.
use mathlib.Core.List.{Memᴰ}
use rust_messagebox_client.Prelude.{
  ℕ, String, ◌<>◌, ◌≡◌, refl, ◌⊎◌, Bool, true, false, Option, some, List, ◌∷◌, arith,
}
use rust_messagebox_client.Error.{ok, err, Fallible, json, auth, encryption, wallet}
use rust_messagebox_client.Types.{MessagePayment}
use rust_messagebox_client.Deps.{Deps}
use rust_messagebox_client.Io.{Response, Io, ret, fetch, encrypt, ◌>>=◌}
use rust_messagebox_client.Io.Runs.{
  Event, AllRuns, Extends, AllRuns-Extends, AllRuns-then, AllRuns-of_result, AllRuns-of_call,
}
use rust_messagebox_client.Encryption.{encrypt_body, message_key, envelope}
use rust_messagebox_client.Client.Http.{
  json_headers, is_failure, post_json_raw, check_status_error, is_duplicate_message_rejection,
}
use rust_messagebox_client.HttpOps.Send.{
  server_id, judge_send, send_request, wire_body, resolve_message_id, resolve_payment,
  send_message_to_host,
}

module _ (D : Deps) (originator : Option String) (host recipient message_box body : String) where
  open D use {PublicKey, public_key_from_string, send_message_request, as_bytes}

  -- The relay holds the message: it says that it had it already, or it took it.
  abbrev pub Holds : Response → Type 0
  Holds response =
      (is_duplicate_message_rejection D response.body ≡ true)
      ⊎ ((is_failure response.status ≡ false) × (check_status_error D response.body ≡ ok tt))

  -- The text that is sent for the body.
  abbrev pub Wires : Bool → List (Event D) → String → Type 0
  Wires true log wire = wire ≡ body
  Wires false log wire =
      (key : PublicKey) × (ciphertext : List ℕ) × (public_key_from_string recipient ≡ ok key)
      × Memᴰ (encrypt (message_key D key) (as_bytes body) originator, ok ciphertext) log
      × (wire ≡ envelope D ciphertext)

  abbrev pub WiresOk : Bool → List (Event D) → Fallible String → Type 0
  WiresOk skip log (ok wire) = Wires skip log wire
  WiresOk skip log (err _) = Unit

  pub wire_body-Wires :
      (skip : Bool) (log : List (Event D))
      → AllRuns (WiresOk skip) log (wire_body D originator host recipient message_box body skip)
  unfolding encrypt_body
  wire_body-Wires true log = refl
  wire_body-Wires false log =
      AllRuns-of_result (WiresOk false) log encryption (public_key_from_string recipient) _
        (λ key known.
          AllRuns-of_call
            (λ log' r. log' ≡ (encrypt (message_key D key) (as_bytes body) originator, r) ∷ log)
            (WiresOk false) log wallet _ _ (λ r. refl)
            (λ log' ciphertext last. (key, ciphertext, known, rw last (Memᴰ.head refl), refl))
            (λ log' e last. tt))
        (λ e. tt)

  pub record Delivered (skip : Bool) (log : List (Event D)) (id : String) : Type 0 where
    pub wire : String
    pub resolved : String
    pub payment : Option MessagePayment
    pub bytes : List ℕ
    pub response : Response
    pub before : List (Event D)
    pub encoded :
        send_message_request (send_request D recipient message_box wire resolved payment) ≡ ok bytes
    pub last :
        log
        ≡ (fetch (host <> "/sendMessage") "POST" (some bytes) json_headers, ok response) ∷ before
    pub wires : Wires skip before wire
    pub holds : Holds response
    pub named : (id ≡ resolved) ⊎ (server_id D response.body ≡ some id)

  abbrev pub DeliveredOk : Bool → List (Event D) → Fallible String → Type 0
  DeliveredOk skip log (ok id) = Delivered skip log id
  DeliveredOk skip log (err _) = Unit

  judge_send-Holds :
      (url resolved : String) (response : Response) (id : String)
      → judge_send D url resolved response ≡ ok id
      → Holds response × ((id ≡ resolved) ⊎ (server_id D response.body ≡ some id))
  unfolding judge_send
  judge_send-Holds url resolved response id h = ground arith

  pub Wires-Extends :
      (skip : Bool) (log log' : List (Event D)) (wire : String)
      → Extends log log'
      → Wires skip log wire
      → Wires skip log' wire
  Wires-Extends true log log' wire ext h = h
  Wires-Extends false log log' wire ext (key, ciphertext, known, seen, same) =
      (key, ciphertext, known, ext _ seen, same)

  post-Delivered :
      (skip : Bool) (wire resolved : String) (payment : Option MessagePayment) (bytes : List ℕ)
      (log : List (Event D))
      → send_message_request (send_request D recipient message_box wire resolved payment) ≡ ok bytes
      → Wires skip log wire
      → AllRuns (DeliveredOk skip) log (
          post_json_raw D (host <> "/sendMessage") bytes >>= λ response.
          ret (judge_send D (host <> "/sendMessage") resolved response))
  unfolding post_json_raw
  post-Delivered skip wire resolved payment bytes log encoded wires =
      AllRuns-of_call
        (λ log' r.
          log' ≡ (fetch (host <> "/sendMessage") "POST" (some bytes) json_headers, r) ∷ log)
        (DeliveredOk skip) log auth _ _ (λ r. refl)
        (λ log' response last.
          judged response log' last (judge_send D (host <> "/sendMessage") resolved response) refl)
        (λ log' e last. tt)
    where
      judged :
          (response : Response) (log' : List (Event D))
          → log'
            ≡ (fetch (host <> "/sendMessage") "POST" (some bytes) json_headers, ok response) ∷ log
          → (r : Fallible String) → judge_send D (host <> "/sendMessage") resolved response ≡ r
          → DeliveredOk skip log' r
      judged response log' last (err e) h = tt
      judged response log' last (ok id) h =
          let (holds, named) = judge_send-Holds (host <> "/sendMessage") resolved response id h in
          record {
            wire = wire;
            resolved = resolved;
            payment = payment;
            bytes = bytes;
            response = response;
            before = log;
            encoded = encoded;
            last = last;
            wires = wires;
            holds = holds;
            named = named;
          }

  -- In every run of `send_message_to_host` that returns an id: the last call was the POST of the
  -- request to the host, the relay answered that it holds the message (a duplicate, or a success
  -- without a logical error), and the id is the relay's or the one in the request. Unless encryption
  -- was to be skipped, the body in the request is the envelope of a ciphertext that the wallet gave
  -- for the body under the recipient's key. It holds for every quote and payment of fees.
  pub send_message_to_host-Delivered :
      (skip check : Bool) (message_id : Option String) (supplied : Option MessagePayment)
      (pay_fees : Io D (Option MessagePayment)) (log : List (Event D))
      → AllRuns (DeliveredOk skip) log (
          send_message_to_host D originator host recipient message_box body skip check message_id
            supplied pay_fees)
  unfolding send_message_to_host
  send_message_to_host-Delivered skip check message_id supplied pay_fees log =
      AllRuns-then (WiresOk skip) (DeliveredOk skip) log
        (wire_body D originator host recipient message_box body skip) _ (wire_body-Wires skip log)
        (λ log1 wire wires.
          AllRuns-then (λ log' _. Extends log1 log') (DeliveredOk skip) log1
            (resolve_message_id D originator host recipient message_box body message_id) _
            (AllRuns-Extends log1 _)
            (λ log2 resolved ext2.
              AllRuns-then (λ log' _. Extends log2 log') (DeliveredOk skip) log2
                (resolve_payment D originator host recipient message_box body check supplied
                  pay_fees)
                _ (AllRuns-Extends log2 _)
                (λ log3 payment ext3.
                  AllRuns-of_result (DeliveredOk skip) log3 json _ _
                    (λ bytes encoded.
                      post-Delivered skip wire resolved payment bytes log3 encoded
                        (Wires-Extends skip log1 log3 wire (λ e m. ext3 e (ext2 e m)) wires))
                    (λ e. tt))
                (λ log' e h. tt))
            (λ log' e h. tt))
        (λ log' e h. tt)
