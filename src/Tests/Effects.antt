-- ===== src/Tests/Effects.antt =====
-- The programs with calls at concrete data: decryption and listing.
use rust_messagebox_client.Prelude.{
  ◌≡◌, refl, Bool, true, false, none, some, List, [], ◌∷◌, string_dec,
}
use rust_messagebox_client.Prelude.Text.{trim, is_control, is_hexdigit}
use rust_messagebox_client.Prelude.Maybe.{traverse}
use rust_messagebox_client.Error.{ok}
use rust_messagebox_client.Types.{ServerPeerMessage, internalized, declined, payment_is_safe}
use rust_messagebox_client.Deps.{unwrapped}
use rust_messagebox_client.Io.{Call, Reply, decrypt, internalize_action, bind}
use rust_messagebox_client.Io.Runs.{Event, AllRuns, run}
use rust_messagebox_client.Encryption.{
  into_body, is_authenticated, try_decrypt_message_typed, try_decrypt_layers_typed, open_body_typed,
}
use rust_messagebox_client.Encryption.Provenance.{
  Claims, innermost_body, try_decrypt_message_typed-Claims,
}
use rust_messagebox_client.HttpOps.Split.{split_message_body, split_object}
use rust_messagebox_client.HttpOps.Internalize.{
  build_internalize_args, build_output, build_wallet_payment, valid_payment_description,
  is_bad_description, is_bad_sender_key,
}
use rust_messagebox_client.HttpOps.Listing.{
  ProcessedMessageBody, process_listed_body, processed, payment_step, settle,
}
use rust_messagebox_client.HttpOps.Listing.Payments.{IsAccounted, process_listed_body-IsAccounted}
use rust_messagebox_client.Tests.Toy.{
  usual, toy, toy_layers_end, alice, doc_from_str, doc_get, doc_as_str, doc_is_object,
  doc_to_string,
}

-- A wallet that gives one verdict on every payment.
abbrev verdict_of : Bool → List (Event toy) → (c : Call toy) → Reply toy c
verdict_of b log (decrypt _ _ _) = ok (1 ∷ [])
verdict_of b log (internalize_action _ _) = ok b
verdict_of b log c = usual c

listed : Bool → Bool → ProcessedMessageBody
unfolding run process_listed_body processed payment_step settle split_message_body split_object
    build_internalize_args build_output build_wallet_payment valid_payment_description
    is_bad_description is_bad_sender_key traverse trim is_control is_hexdigit string_dec bind
    unwrapped toy_layers_end payment_is_safe try_decrypt_message_typed try_decrypt_layers_typed
    open_body_typed into_body is_authenticated doc_from_str doc_get doc_as_str doc_is_object
    doc_to_string
listed accept verdict =
    (run (verdict_of verdict) [] (process_listed_body toy "paid" alice accept none)).0

listed_accepted : listed true true ≡ record {
  inner_body = "hi";
  authenticated_decrypt = false;
  payment_outcome = internalized;
  raw_payment_envelope = none;
}
unfolding listed
listed_accepted = refl

listed_declined : listed true false ≡ record {
  inner_body = "hi";
  authenticated_decrypt = false;
  payment_outcome = declined;
  raw_payment_envelope = some "paid";
}
unfolding listed
listed_declined = refl

process_listed_body-IsAccounted_example :
    AllRuns
      (IsAccounted toy true none "paid" [])
      []
      (process_listed_body toy "paid" alice true none)
process_listed_body-IsAccounted_example =
    process_listed_body-IsAccounted toy none "paid" alice true []

try_decrypt_message_typed-Claims_example :
    AllRuns
      (Claims toy alice none (innermost_body toy alice none "secret") [])
      []
      (try_decrypt_message_typed toy "secret" alice none)
try_decrypt_message_typed-Claims_example =
    try_decrypt_message_typed-Claims toy alice none "secret" []

abbrev inbox : List ServerPeerMessage
inbox =
    record {
      message_id = "1";
      body = "paid";
      sender = alice;
      created_at = "";
      updated_at = "";
      acknowledged = none;
      authenticated_decrypt = false;
    }
    ∷ []
