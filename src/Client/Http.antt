-- ===== src/Client/Http.antt =====
-- The requests of src/client.rs, and what it reads in a reply's body.
pub mod Unwrap
pub mod Got
use mathlib.Core.Option
use rust_messagebox_client.Prelude.{
  ℕ, String, ◌<>◌, ◌≡◌, refl, Bool, true, false, ◌&&◌, ◌||◌, Option, none, some, List, [], ◌∷◌, ltb,
  leb, ◌=?◌, unwrap_or, if◌then◌else◌,
}
use rust_messagebox_client.Prelude.Dict.{Dict}
use rust_messagebox_client.Error.{Result, ok, err, Fallible, auth, http, json}
use rust_messagebox_client.Types.{ServerPeerMessage, AuthenticatedPeerMessage}
use rust_messagebox_client.Deps.{Deps}
use rust_messagebox_client.Io.{
  Response, Io, Prog, ret, bind, perform, fetch, of_result, of_call, ◌>>=◌,
}
use rust_messagebox_client.Encryption.{
  DecryptOutcome, into_body, is_authenticated, layer, try_decrypt_message_typed,
}
use rust_messagebox_client.HttpOps.Listing.{parse_bounded_list_response}

abbrev pub json_headers : Dict String
json_headers = ("content-type", "application/json") ∷ []

-- `status < 200 || status >= 300`
abbrev pub is_failure : ℕ → Bool
is_failure status = ltb status 200 || leb 300 status

-- `v.get(key).and_then(|s| s.as_str()) == Some(text)`
abbrev pub is_text : Option String → String → Bool
is_text none text = false
is_text (some s) text = s =? text

module _ (D : Deps) where
  open D use {Value, from_str, from_slice, get, as_str}

  unfoldable pub post_json_raw : String → List ℕ → Io D Response
  post_json_raw url body_bytes =
      of_call auth (perform (fetch url "POST" (some body_bytes) json_headers))

  unfoldable pub post_json : String → List ℕ → Io D Response
  post_json url body_bytes = do
    response ← of_call auth (perform (fetch url "POST" (some body_bytes) json_headers))
    if is_failure response.status then ret (err (http response.status url)) else ret (ok response)

  unfoldable pub get_json : String → Io D Response
  get_json url = do
    response ← of_call auth (perform (fetch url "GET" none []))
    if is_failure response.status then ret (err (http response.status url)) else ret (ok response)

  abbrev pub text_member : Value → String → Option String
  text_member v key = Option.bind (get v key) as_str

  unfoldable pub check_status_error : List ℕ → Fallible (Unit {0})
  check_status_error body = elim (from_slice body) [
    | err _ ↦ ok tt
    | ok v ↦
        if is_text (text_member v "status") "error"
        then err (auth (unwrap_or (text_member v "description") "unknown error"))
        else ok tt
  ]

  unfoldable pub is_duplicate_message_rejection : List ℕ → Bool
  is_duplicate_message_rejection body = elim (from_slice body) [
    | err _ ↦ false
    | ok v ↦
        is_text (text_member v "status") "error"
        && is_text (text_member v "code") "ERR_DUPLICATE_MESSAGE"
  ]

  unfoldable pub extract_plain_body : String → String
  extract_plain_body body = unwrap_or (layer D body) body

  module _ (identity_key message_box : String) (originator : Option String) where
    abbrev pub polled : ServerPeerMessage → DecryptOutcome → AuthenticatedPeerMessage
    polled msg outcome = record {
      message_id = msg.message_id;
      sender = msg.sender;
      recipient = identity_key;
      message_box = message_box;
      body = into_body outcome;
      authenticated_decrypt = is_authenticated outcome;
    }

    -- The loop of `poll_list_messages`.
    unfoldable pub poll_messages : List ServerPeerMessage → Prog D (List AuthenticatedPeerMessage)
    poll_messages [] = ret []
    poll_messages (msg ∷ messages) =
        bind (try_decrypt_message_typed D (extract_plain_body msg.body) msg.sender originator)
          λ outcome. bind (poll_messages messages) λ rest. ret (polled msg outcome ∷ rest)

    unfoldable pub poll_list_messages : String → Io D (List AuthenticatedPeerMessage)
    poll_list_messages host = do
      body_bytes ← of_result json (D.list_messages_params message_box)
      response ← post_json (host <> "/listMessages") body_bytes
      list_response ← ret (parse_bounded_list_response D response.body)
      bind (poll_messages list_response.messages) (λ result. ret (ok result))
