-- ===== src/HttpOps/Acknowledge.antt =====
-- `acknowledge_message` of src/http_ops.rs on the hosts that are known, and on one host. `join_all`
-- runs one POST for each host; here they run in the order of the list.
pub mod Asked
use rust_messagebox_client.Prelude.{
  ℕ, String, ◌<>◌, Bool, true, false, ◌||◌, List, [], ◌∷◌, length, ◌==◌, any, if◌then◌else◌,
}
use rust_messagebox_client.Error.{Result, ok, err, Fallible, http, json}
use rust_messagebox_client.Deps.{Deps}
use rust_messagebox_client.Io.{Io, Prog, ret, bind, of_result, ◌>>=◌, ◌>>◌}
use rust_messagebox_client.Client.Http.{post_json, check_status_error}

abbrev pub is_ok : Fallible (Unit {0}) → Bool
is_ok (ok _) = true
is_ok (err _) = false

module _ (D : Deps) (message_ids : List String) where
  unfoldable pub acknowledge_message_on_host : String → Io D (Unit {0})
  acknowledge_message_on_host host = do
    body_bytes ← of_result json (D.acknowledge_message_params message_ids)
    response ← post_json D (host <> "/acknowledgeMessage") body_bytes
    ret (check_status_error D response.body)

  unfoldable pub acknowledge_on_all : List String → Prog D (List (Fallible (Unit {0})))
  acknowledge_on_all [] = ret []
  acknowledge_on_all (host ∷ hosts) =
      bind (acknowledge_message_on_host host)
        λ outcome. bind (acknowledge_on_all hosts) λ outcomes. ret (outcome ∷ outcomes)

  -- `Ok` if one host at least succeeded.
  abbrev pub any_success : String → List (Fallible (Unit {0})) → Fallible (Unit {0})
  any_success message outcomes = if any is_ok outcomes then ok tt else err (http 0 message)

  -- On the set of advertised hosts with the default host in it; `message` is the text of the error.
  unfoldable pub acknowledge_on_hosts : String → String → List String → Io D (Unit {0})
  acknowledge_on_hosts message default_host host_set =
      if length host_set == 1
      then acknowledge_message_on_host default_host
      else bind (acknowledge_on_all host_set) (λ outcomes. ret (any_success message outcomes))
