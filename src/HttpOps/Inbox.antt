-- ===== src/HttpOps/Inbox.antt =====
-- The requests of the list functions and of `acknowledge_message` of src/http_ops.rs, and the hosts
-- that they go to. The `HashSet` of hosts is a list without repetitions, in the order in which its
-- hosts were found; `join_all` runs its futures in that order.
pub mod Acked
pub mod Answers
pub mod Deduped
pub mod Orderless
pub mod Gathered
use rust_messagebox_client.Prelude.{
  String, ◌<>◌, Bool, Option, none, some, List, [], ◌∷◌, ◌++◌, map, length, ◌==◌, contains,
  unwrap_or, if◌then◌else◌,
}
use rust_messagebox_client.Prelude.Decimal.{decimal}
use rust_messagebox_client.Error.{ok, err, Fallible, http, json}
use rust_messagebox_client.Types.{
  PeerMessage, ServerPeerMessage, ListMessagesResponse, AdvertisementToken, PaymentAwarePeerMessage,
  PaymentAwareServerPeerMessage,
}
use rust_messagebox_client.Deps.{Deps}
use rust_messagebox_client.Io.{Prog, Io, ret, bind, of_prog, of_result, ◌>>=◌, ◌>>◌}
use rust_messagebox_client.Client.Http.{post_json}
use rust_messagebox_client.Session.{Client, get_identity_key}
use rust_messagebox_client.Session.Init.{assert_initialized}
use rust_messagebox_client.HostResolution.{query_advertisements}
use rust_messagebox_client.HttpOps.Listing.{
  parse_bounded_list_response, receipts, lite_receipts, unseen, into_legacy_peer_message,
  into_legacy_server_message,
}
use rust_messagebox_client.HttpOps.Acknowledge.{acknowledge_message_on_host, acknowledge_on_hosts}

-- `HashSet::insert`
abbrev pub insert_host : List String → String → List String
insert_host hosts host = if contains hosts host then hosts else hosts ++ host ∷ []

-- The hosts of advertisements, inserted one after the other.
unfoldable pub insert_hosts : List AdvertisementToken → List String → List String
insert_hosts [] hosts = hosts
insert_hosts (ad ∷ ads) hosts = insert_hosts ads (insert_host hosts ad.host)

-- `filter_map(Result::ok)` and `flatten`, with the number of the results that are kept.
unfoldable pub successful {ℓ} : {A : Type ℓ} → List (Fallible (List A)) → List (List A)
successful [] = []
successful (ok rs ∷ outcomes) = rs ∷ successful outcomes
successful (err _ ∷ outcomes) = successful outcomes

unfoldable pub flatten {ℓ} : {A : Type ℓ} → List (List A) → List A
flatten [] = []
flatten (rs ∷ rss) = rs ++ flatten rss

abbrev pub merge :
    String → List (List PaymentAwarePeerMessage) → Fallible (List PaymentAwarePeerMessage)
merge message [] = err (http 0 message)
merge message (rs ∷ rss) = ok (unseen [] (flatten (rs ∷ rss)))

module _ (D : Deps) where
  -- The POST of `/listMessages` and its bounded reply.
  unfoldable pub list_on_host : String → String → Io D ListMessagesResponse
  list_on_host host message_box = do
    body_bytes ← of_result json (D.list_messages_params message_box)
    response ← post_json D (host <> "/listMessages") body_bytes
    ret (parse_bounded_list_response D response.body)

  module _ (client : Client) where
    unfoldable pub list_messages_lite_detailed :
        String → Option String → Io D (List PaymentAwareServerPeerMessage)
    list_messages_lite_detailed message_box override_host = do
      assert_initialized D client
      list_response ← list_on_host (unwrap_or override_host client.host) message_box
      of_prog (lite_receipts D list_response.messages)

    unfoldable pub list_messages_lite : String → Option String → Io D (List ServerPeerMessage)
    list_messages_lite message_box override_host = do
      detailed ← list_messages_lite_detailed message_box override_host
      ret (ok (map into_legacy_server_message detailed))

    -- The set of hosts: those that the client's key advertises, and its own.
    abbrev pub own_hosts : Io D (List String)
    own_hosts = do
      identity_key ← get_identity_key D client
      ads ← query_advertisements D client (some identity_key) none
      ret (ok (insert_host (insert_hosts ads []) client.host))

    module _ (message_box : String) (accept_payments : Bool) where
      unfoldable pub list_messages_detailed_from_host : String → Io D (List PaymentAwarePeerMessage)
      list_messages_detailed_from_host host = do
        identity_key ← get_identity_key D client
        list_response ← list_on_host host message_box
        of_prog (
            receipts D identity_key message_box accept_payments client.originator
              list_response.messages)

      -- `join_all`
      unfoldable pub list_from_all :
          List String → Prog D (List (Fallible (List PaymentAwarePeerMessage)))
      list_from_all [] = ret []
      list_from_all (host ∷ hosts) =
          bind (list_messages_detailed_from_host host)
            λ outcome. bind (list_from_all hosts) λ outcomes. ret (outcome ∷ outcomes)

      unfoldable pub list_from_hosts : List String → Io D (List PaymentAwarePeerMessage)
      list_from_hosts host_set =
          let failure = "list_messages: all " <> (decimal (length host_set) <> " hosts failed") in
          let all =
            bind (list_from_all host_set) (λ outcomes. ret (merge failure (successful outcomes))) in
          if length host_set == 1 then list_messages_detailed_from_host client.host else all

      -- After the initialization.
      abbrev pub list_unless : Option String → Io D (List PaymentAwarePeerMessage)
      list_unless (some host) = list_messages_detailed_from_host host
      list_unless none = own_hosts >>= list_from_hosts

      unfoldable pub list_messages_detailed : Option String → Io D (List PaymentAwarePeerMessage)
      list_messages_detailed override_host = do
        assert_initialized D client
        list_unless override_host

      unfoldable pub list_messages : Option String → Io D (List PeerMessage)
      list_messages override_host = do
        detailed ← list_messages_detailed override_host
        ret (ok (map into_legacy_peer_message detailed))

    abbrev pub acknowledge_unless : List String → Option String → Io D (Unit {0})
    acknowledge_unless message_ids (some host) = acknowledge_message_on_host D message_ids host
    acknowledge_unless message_ids none = own_hosts >>= λ hosts.
        acknowledge_on_hosts D message_ids
          ("acknowledge_message: all " <> (decimal (length hosts) <> " hosts failed")) client.host
          hosts

    unfoldable pub acknowledge_message : List String → Option String → Io D (Unit {0})
    acknowledge_message message_ids override_host = do
      assert_initialized D client
      acknowledge_unless message_ids override_host
