-- ===== src/Permissions.antt =====
-- src/permissions.rs: permissions of message boxes on the relay, and quotes for one recipient.
pub mod Multi
use rust_messagebox_client.Prelude.{
  ℕ, String, ◌<>◌, Option, none, some, List, [], ◌∷◌, ◌++◌, unwrap_or,
}
use rust_messagebox_client.Prelude.Int.{ℤ, pos, negsuc}
use rust_messagebox_client.Prelude.Decimal.{decimal}
use rust_messagebox_client.Prelude.Dict
use rust_messagebox_client.Error.{json, missing_header, ok_or, ok}
use rust_messagebox_client.Types.Permissions.{
  SetPermissionParams, MessageBoxPermission, MessageBoxQuote,
}
use rust_messagebox_client.Deps.{Deps}
use rust_messagebox_client.Io.{Io, ret, of_result, ◌>>=◌, ◌>>◌}
use rust_messagebox_client.Client.Http.{post_json, get_json, check_status_error}
use rust_messagebox_client.Session.{Client, get_identity_key}
use rust_messagebox_client.Session.Init.{assert_initialized}

-- `parts.join("&")`
abbrev join : List String → String
join [] = ""
join (part ∷ []) = part
join (part ∷ next ∷ parts) = part <> ("&" <> join (next ∷ parts))

abbrev query : List String → String
query [] = ""
query (part ∷ parts) = "?" <> join (part ∷ parts)

-- `if let Some(a) = o { params.push(f(a)) }`
abbrev pushed {ℓ} : {A : Type ℓ} → (A → String) → Option A → List String
pushed f none = []
pushed f (some a) = f a ∷ []

abbrev pub permission_url : String → String → String → Option String → String
permission_url base recipient message_box sender =
    base
    <> ("/permissions/get?recipient="
        <> (recipient
            <> ("&messageBox="
                <> (message_box <> (elim sender [ none ↦ "" | some s ↦ "&sender=" <> s ])))))

abbrev pub permissions_url : String → Option String → Option ℕ → Option ℕ → String
permissions_url base message_box limit offset =
    base
    <> ("/permissions/list"
        <> query (
            pushed (λ mb. "message_box=" <> mb) message_box
            ++ (pushed (λ l. "limit=" <> decimal l) limit
                ++ pushed (λ o. "offset=" <> decimal o) offset)))

abbrev pub quote_url : String → String → String → String
quote_url base recipient message_box =
    base <> ("/permissions/quote?recipient=" <> (recipient <> ("&messageBox=" <> message_box)))

-- Who may send notifications: for a fee, or not at all.
abbrev pub notification_permission : String → ℤ → SetPermissionParams
notification_permission sender recipient_fee = record {
  message_box = "notifications";
  sender = some sender;
  recipient_fee = recipient_fee;
}

module _ (D : Deps) (client : Client) where
  open D use {
    set_permission_params, get_permission_response, list_permissions_response, quote_response,
  }

  unfoldable pub set_message_box_permission : SetPermissionParams → Option String → Io D (Unit {0})
  set_message_box_permission params override_host = do
    assert_initialized D client
    body_bytes ← of_result json (set_permission_params params)
    response ← post_json D (unwrap_or override_host client.host <> "/permissions/set") body_bytes
    ret (check_status_error D response.body)

  unfoldable pub get_message_box_permission :
      String → String → Option String → Option String → Io D (Option MessageBoxPermission)
  get_message_box_permission recipient message_box sender override_host = do
    assert_initialized D client
    response ←
        get_json D
          (permission_url (unwrap_or override_host client.host) recipient message_box sender)
    ret (check_status_error D response.body)
    of_result json (get_permission_response response.body)

  unfoldable pub list_message_box_permissions :
      Option String → Option ℕ → Option ℕ → Option String → Io D (List MessageBoxPermission)
  list_message_box_permissions message_box limit offset override_host = do
    assert_initialized D client
    response ←
        get_json D (permissions_url (unwrap_or override_host client.host) message_box limit offset)
    ret (check_status_error D response.body)
    of_result json (list_permissions_response response.body)

  unfoldable pub get_message_box_quote : String → String → Option String → Io D MessageBoxQuote
  get_message_box_quote recipient message_box override_host = do
    assert_initialized D client
    response ← get_json D (quote_url (unwrap_or override_host client.host) recipient message_box)
    ret (check_status_error D response.body)
    agent_key ← ret (
        ok_or (missing_header "x-bsv-auth-identity-key")
          (Dict.lookup "x-bsv-auth-identity-key" response.headers))
    quote ← of_result json (quote_response response.body)
    ret (
        ok (record {
          delivery_fee = quote.delivery_fee;
          recipient_fee = quote.recipient_fee;
          delivery_agent_identity_key = agent_key;
        }))

  unfoldable pub allow_notifications_from_peer : String → ℤ → Option String → Io D (Unit {0})
  allow_notifications_from_peer sender recipient_fee =
      set_message_box_permission (notification_permission sender recipient_fee)

  unfoldable pub deny_notifications_from_peer : String → Option String → Io D (Unit {0})
  deny_notifications_from_peer sender =
      set_message_box_permission (notification_permission sender (negsuc 0))

  unfoldable pub check_peer_notification_status :
      String → Option String → Io D (Option MessageBoxPermission)
  check_peer_notification_status peer override_host = do
    recipient ← get_identity_key D client
    get_message_box_permission recipient "notifications" (some peer) override_host

  unfoldable pub list_peer_notifications : Option String → Io D (List MessageBoxPermission)
  list_peer_notifications = list_message_box_permissions (some "notifications") none none
