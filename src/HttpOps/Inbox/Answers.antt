-- ===== src/HttpOps/Inbox/Answers.antt =====
-- What a host's part in `list_messages_detailed` of src/http_ops.rs comes to.
use mathlib.Core.List.{Memᴰ}
use rust_messagebox_client.Prelude.{
  ℕ, String, ◌<>◌, ◌≡◌, refl, ◌⊎◌, inl, inr, Bool, true, false, some, List, if◌then◌else◌,
}
use rust_messagebox_client.Prelude.Maybe.{All2}
use rust_messagebox_client.Error.{Result, ok, err, Fallible, MessageBoxError, json, http}
use rust_messagebox_client.Types.{ListMessagesResponse, PaymentAwarePeerMessage}
use rust_messagebox_client.Deps.{Deps}
use rust_messagebox_client.Io.{
  Response, get_identity_key as fetch_identity_key, fetch, bind, ret, of_result, ◌>>=◌,
}
use rust_messagebox_client.Io.Runs.{
  Event, AllRuns, Extends, AllRuns-Extends, AllRuns-and, AllRuns-bind, AllRuns-then,
}
use rust_messagebox_client.Client.Http.{json_headers, is_failure, post_json}
use rust_messagebox_client.Session.{Client}
use rust_messagebox_client.Session.Own.{KeyRead, get_identity_key-KeyRead}
use rust_messagebox_client.HttpOps.Listing.{parse_bounded_list_response}
use rust_messagebox_client.HttpOps.Listing.Views.{Receives, receipts-Receives}
use rust_messagebox_client.HttpOps.Inbox.{list_on_host, list_messages_detailed_from_host}

module _ (D : Deps) (client : Client) (message_box : String) (accept_payments : Bool) where
  -- The page that a host gave.
  pub record Page (log : List (Event D)) (host : String) (page : ListMessagesResponse)
      : Type 0 where
    pub bytes : List ℕ
    pub response : Response
    pub encoded : D.list_messages_params message_box ≡ ok bytes
    pub success : is_failure response.status ≡ false
    pub parsed : parse_bounded_list_response D response.body ≡ ok page
    pub seen :
        Memᴰ (fetch (host <> "/listMessages") "POST" (some bytes) json_headers, ok response) log

  -- The host gave a page, and there is a receipt for each of its messages.
  abbrev pub Listed : List (Event D) → String → List PaymentAwarePeerMessage → Type 0
  Listed log host rs =
      (page : ListMessagesResponse) × (key : String) × Page log host page
      × All2 (Receives D key message_box accept_payments client.originator) page.messages rs

  -- An answer that is no page.
  abbrev pub Refuses : Result Response String → Type 0
  Refuses (err _) = Unit
  Refuses (ok response) =
      (is_failure response.status ≡ true)
      ⊎ ((e : MessageBoxError) × (parse_bounded_list_response D response.body ≡ err e))

  -- The request was not made, because the wallet gave no key or the box has no text, or the answer to
  -- it was no page.
  abbrev pub Unlisted : List (Event D) → String → Type 0
  Unlisted log host =
      ((e : String) × Memᴰ (fetch_identity_key client.originator, err e) log)
      ⊎ ((e : String) × (D.list_messages_params message_box ≡ err e))
      ⊎ ((bytes : List ℕ) × (r : Result Response String) × Refuses r
          × Memᴰ (fetch (host <> "/listMessages") "POST" (some bytes) json_headers, r) log)

  abbrev pub Answers : List (Event D) → String → Fallible (List PaymentAwarePeerMessage) → Type 0
  Answers log host (ok rs) = Listed log host rs
  Answers log host (err _) = Unlisted log host

  Page-Extends :
      (log log' : List (Event D)) (host : String) (page : ListMessagesResponse)
      → Extends log log'
      → Page log host page
      → Page log' host page
  Page-Extends log log' host page ext p = record {
    bytes = p.bytes;
    response = p.response;
    encoded = p.encoded;
    success = p.success;
    parsed = p.parsed;
    seen = ext _ p.seen;
  }

  Unlisted-Extends :
      (log log' : List (Event D)) (host : String)
      → Extends log log'
      → Unlisted log host
      → Unlisted log' host
  Unlisted-Extends log log' host ext (inl (e, seen)) = inl (e, ext _ seen)
  Unlisted-Extends log log' host ext (inr (inl h)) = inr (inl h)
  Unlisted-Extends log log' host ext (inr (inr (bytes, r, refused, seen))) =
      inr (inr (bytes, r, refused, ext _ seen))

  pub Answers-Extends :
      (log log' : List (Event D)) (host : String) (r : Fallible (List PaymentAwarePeerMessage))
      → Extends log log'
      → Answers log host r
      → Answers log' host r
  Answers-Extends log log' host (ok rs) ext (page, key, p, received) =
      (page, key, Page-Extends log log' host page ext p, received)
  Answers-Extends log log' host (err _) ext h = Unlisted-Extends log log' host ext h

  abbrev PageOk : String → List (Event D) → Fallible ListMessagesResponse → Type 0
  PageOk host log (ok page) = Page log host page
  PageOk host log (err _) = Unlisted log host

  parsed-PageOk :
      (host : String) (bytes : List ℕ) (response : Response) (log : List (Event D))
      → D.list_messages_params message_box ≡ ok bytes
      → is_failure response.status ≡ false
      → Memᴰ (fetch (host <> "/listMessages") "POST" (some bytes) json_headers, ok response) log
      → (r : Fallible ListMessagesResponse) → parse_bounded_list_response D response.body ≡ r
      → PageOk host log r
  parsed-PageOk host bytes response log encoded success seen (ok page) h = record {
    bytes = bytes;
    response = response;
    encoded = encoded;
    success = success;
    parsed = h;
    seen = seen;
  }
  parsed-PageOk host bytes response log encoded success seen (err e) h =
      inr (inr (bytes, ok response, inr (e, h), seen))

  replied-PageOk :
      (host : String) (bytes : List ℕ) (response : Response) (log : List (Event D)) (failed : Bool)
      → D.list_messages_params message_box ≡ ok bytes
      → Memᴰ (fetch (host <> "/listMessages") "POST" (some bytes) json_headers, ok response) log
      → is_failure response.status ≡ failed
      → AllRuns (PageOk host) log (
          (if failed
            then ret (err (http response.status (host <> "/listMessages")))
            else ret (ok response))
          >>= λ response. ret (parse_bounded_list_response D response.body))
  unfolding bind
  replied-PageOk host bytes response log true encoded seen h =
      inr (inr (bytes, ok response, inl h, seen))
  replied-PageOk host bytes response log false encoded seen h =
      parsed-PageOk host bytes response log encoded h seen
        (parse_bounded_list_response D response.body) refl

  encoded-PageOk :
      (host : String) (log : List (Event D)) (r : Result (List ℕ) String)
      → D.list_messages_params message_box ≡ r
      → AllRuns (PageOk host) log (
          of_result json r >>= λ body_bytes.
          post_json D (host <> "/listMessages") body_bytes >>= λ response.
          ret (parse_bounded_list_response D response.body))
  unfolding post_json bind
  encoded-PageOk host log (err e) h = inr (inl (e, h))
  encoded-PageOk host log (ok bytes) h = elim [
    | err e ↦ inr (inr (bytes, err e, tt, Memᴰ.head refl))
    | ok response ↦
        replied-PageOk host bytes response _ (is_failure response.status) h (Memᴰ.head refl) refl
  ]

  on_host-PageOk :
      (host : String) (log : List (Event D))
      → AllRuns (PageOk host) log (list_on_host D host message_box)
  unfolding list_on_host
  on_host-PageOk host log = encoded-PageOk host log (D.list_messages_params message_box) refl

  pub from_host-Answers :
      (host : String) (log : List (Event D))
      → AllRuns
          (λ log' r. Answers log' host r)
          log
          (list_messages_detailed_from_host D client message_box accept_payments host)
  unfolding list_messages_detailed_from_host
  from_host-Answers host log =
      AllRuns-then (KeyRead D client) (λ log' r. Answers log' host r) log _ _
        (get_identity_key-KeyRead D client log)
        (λ log1 key u.
          AllRuns-then (PageOk host) (λ log' r. Answers log' host r) log1 _ _
            (on_host-PageOk host log1)
            (λ log2 page p.
              AllRuns-bind
                (λ log' rs.
                  Extends log2 log'
                  × All2 (Receives D key message_box accept_payments client.originator)
                      page.messages rs)
                (λ log' r. Answers log' host r) log2 _ _
                (AllRuns-and _ _ log2 _ (AllRuns-Extends log2 _) (
                  receipts-Receives D key message_box accept_payments client.originator
                    page.messages log2))
                (λ log3 rs (ext, received).
                  (page, key, Page-Extends log2 log3 host page ext p, received)))
            (λ log2 e h. h))
        (λ log1 e (e', seen, same). inl (e', seen))
