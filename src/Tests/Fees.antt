-- ===== src/Tests/Fees.antt =====
-- Quotes, fees and sends to several recipients at concrete data.
use rust_messagebox_client.Prelude.{◌≡◌, refl, none, some, List, [], ◌∷◌, map, true}
use rust_messagebox_client.Prelude.Int.{ℤ, pos}
use rust_messagebox_client.Error.{ok, err, Fallible}
use rust_messagebox_client.Types.{MessagePayment, MessagePaymentOutput}
use rust_messagebox_client.Types.Permissions.{MessageBoxQuote}
use rust_messagebox_client.Types.SendList.{SendListParams}
use rust_messagebox_client.Io.{bind}
use rust_messagebox_client.Io.Runs.{AllRuns, run}
use rust_messagebox_client.Session.{Client, get_identity_key}
use rust_messagebox_client.Permissions.Multi.{get_message_box_quote_multi}
use rust_messagebox_client.Permissions.Multi.Runs.{QuotedAll, get_message_box_quote_multi-QuotedAll}
use rust_messagebox_client.HttpOps.Fees.{FeeTuple, create_message_payment, pay}
use rust_messagebox_client.Tests.Toy.{toy, usual, alice}

abbrev client : Client
client = record { host = "h"; originator = none }

abbrev quote : MessageBoxQuote
quote = record {
  delivery_fee = pos 3;
  recipient_fee = pos 10;
  delivery_agent_identity_key = "02agent";
}

amounts : Fallible MessagePayment → List ℤ
amounts (ok p) = map (λ (o : MessagePaymentOutput). pos o.output_index) p.outputs
amounts (err _) = []

-- Both fees are paid, and numbered.
numbered :
    amounts (run (λ log c. usual c) [] (create_message_payment toy client alice quote none)).0
    ≡ pos 0 ∷ pos 1 ∷ []
unfolding amounts run create_message_payment pay get_identity_key bind
numbered = refl

abbrev tuples : List (FeeTuple toy client)
tuples = ("02bb", pos 3, pos 10, "02agent") ∷ ("02cc", pos 3, pos 0, "") ∷ []

get_message_box_quote_multi-QuotedAll_example :
    AllRuns
      (QuotedAll toy client (some "h") "inbox" ("02bb" ∷ "02cc" ∷ []))
      []
      (get_message_box_quote_multi toy client (some "h") "inbox" ("02bb" ∷ "02cc" ∷ []))
get_message_box_quote_multi-QuotedAll_example =
    get_message_box_quote_multi-QuotedAll toy client (some "h") "inbox" ("02bb" ∷ "02cc" ∷ []) []

abbrev params : SendListParams
params = record {
  recipients = "02bb" ∷ "02cc" ∷ [];
  message_box = "inbox";
  body = "hi";
  skip_encryption = some true;
}
