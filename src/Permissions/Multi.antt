-- ===== src/Permissions/Multi.antt =====
-- `get_message_box_quote_multi` of src/permissions.rs: a quote for each recipient, and the totals.
pub mod Sums
pub mod Runs
use rust_messagebox_client.Prelude.{
  ℕ, zero, suc, String, ◌<>◌, Option, none, some, List, [], ◌∷◌, ◌++◌, ◌=?◌, not, Bool, true, false,
  ◌&&◌, ◌||◌, if◌then◌else◌,
}
use rust_messagebox_client.Prelude.Int.{ℤ, pos, negsuc, is_negative, add_i64}
use rust_messagebox_client.Prelude.Dict
use rust_messagebox_client.Prelude.Dict.{Dict}
use rust_messagebox_client.Error.{Result, ok, err, Fallible, MessageBoxError, display}
use rust_messagebox_client.Types.Permissions.{QuoteBody}
use rust_messagebox_client.Types.SendList.{RecipientQuote, MessageBoxMultiQuote}
use rust_messagebox_client.Deps.{Deps}
use rust_messagebox_client.Io.{Response, Prog, Io, ret, bind}
use rust_messagebox_client.Client.Http.{get_json}
use rust_messagebox_client.Session.{Client}
use rust_messagebox_client.HostResolution.{resolve_host_for_recipient}

-- The mutable variables of the function.
pub record Quotes : Type 0 where
  pub quotes_by_recipient : List RecipientQuote
  pub blocked_recipients : List String
  pub delivery_agent_identity_key_by_host : Dict String
  pub total_delivery_fee : ℤ
  pub total_recipient_fee : ℤ

abbrev pub no_quotes : Quotes
no_quotes = record {
  quotes_by_recipient = [];
  blocked_recipients = [];
  delivery_agent_identity_key_by_host = [];
  total_delivery_fee = pos 0;
  total_recipient_fee = pos 0;
}

abbrev is_zero : ℤ → Bool
is_zero (pos zero) = true
is_zero (pos (suc n)) = false
is_zero (negsuc n) = false

abbrev pub quote_status : ℤ → ℤ → String
quote_status delivery_fee recipient_fee =
    if is_negative recipient_fee
    then "blocked"
    else if is_zero recipient_fee && is_zero delivery_fee
    then "always_allow"
    else "payment_required"

abbrev pub unquoted : String → String → String → RecipientQuote
unquoted recipient message_box status = record {
  recipient = recipient;
  message_box = message_box;
  delivery_fee = pos 0;
  recipient_fee = pos 0;
  status = status;
}

abbrev pub quoted : String → String → ℤ → ℤ → RecipientQuote
quoted recipient message_box delivery_fee recipient_fee = record {
  recipient = recipient;
  message_box = message_box;
  delivery_fee = delivery_fee;
  recipient_fee = recipient_fee;
  status = quote_status delivery_fee recipient_fee;
}

-- The two `push`es for a recipient whose quote failed.
unfoldable pub note_failed : String → String → String → Quotes → Quotes
note_failed recipient message_box status q = record q {
  blocked_recipients = q.blocked_recipients ++ recipient ∷ [];
  quotes_by_recipient = q.quotes_by_recipient ++ unquoted recipient message_box status ∷ [];
}

-- The end of the loop's body.
unfoldable pub note_fees : String → String → ℤ → ℤ → Quotes → Quotes
note_fees recipient message_box delivery_fee recipient_fee q =
    let quotes =
      q.quotes_by_recipient ++ quoted recipient message_box delivery_fee recipient_fee ∷ [] in
    if is_negative recipient_fee
    then record q {
      quotes_by_recipient = quotes;
      blocked_recipients = q.blocked_recipients ++ recipient ∷ [];
    }
    else record q {
      quotes_by_recipient = quotes;
      total_delivery_fee = add_i64 q.total_delivery_fee delivery_fee;
      total_recipient_fee = add_i64 q.total_recipient_fee recipient_fee;
    }

abbrev pub note_agent : String → Option String → Quotes → Quotes
note_agent host none q = q
note_agent host (some key) q = record q {
  delivery_agent_identity_key_by_host = Dict.insert host key q.delivery_agent_identity_key_by_host;
}

abbrev pub note_parsed : String → String → Result QuoteBody String → Quotes → Quotes
note_parsed recipient message_box (err _) q = note_failed recipient message_box "parse_error" q
note_parsed recipient message_box (ok quote) q =
    note_fees recipient message_box quote.delivery_fee quote.recipient_fee q

unfoldable pub total : Quotes → MessageBoxMultiQuote
total q = record {
  quotes_by_recipient = q.quotes_by_recipient;
  totals = some (record {
    delivery_fees = q.total_delivery_fee;
    recipient_fees = q.total_recipient_fee;
    total_for_payable_recipients = add_i64 q.total_delivery_fee q.total_recipient_fee;
  });
  blocked_recipients = q.blocked_recipients;
  delivery_agent_identity_key_by_host = q.delivery_agent_identity_key_by_host;
}

module _ (D : Deps) (client : Client) (override_host : Option String) where
  abbrev host_or : Fallible String → String
  host_or (ok host) = host
  host_or (err _) = client.host

  abbrev resolved : Option String → String → Prog D String
  resolved (some h) recipient = ret h
  resolved none recipient =
      bind (resolve_host_for_recipient D client recipient) (λ r. ret (host_or r))

  -- The override, or the host of a recipient, or the client's own host when that fails.
  unfoldable pub host_for : String → Prog D String
  host_for recipient = resolved override_host recipient

  module _ (message_box : String) where
    -- What a reply to a request for a quote does to the variables.
    abbrev pub note_reply : String → String → Fallible Response → Quotes → Quotes
    note_reply recipient host (err e) q =
        note_failed recipient message_box ("error: " <> display e) q
    note_reply recipient host (ok response) q =
        note_parsed recipient message_box (D.quote_response response.body)
          (note_agent host (Dict.lookup "x-bsv-auth-identity-key" response.headers) q)

    unfoldable pub quote_one : String → Quotes → Prog D Quotes
    quote_one recipient q = bind (host_for recipient) λ host.
        bind
          (get_json D (
            host
            <> ("/permissions/quote?recipient=" <> (recipient <> ("&messageBox=" <> message_box)))))
          λ reply. ret (note_reply recipient host reply q)

    unfoldable pub quote_all : List String → Quotes → Prog D Quotes
    quote_all [] q = ret q
    quote_all (recipient ∷ recipients) q =
        bind (quote_one recipient q) λ q'. quote_all recipients q'

    unfoldable pub get_message_box_quote_multi : List String → Io D MessageBoxMultiQuote
    get_message_box_quote_multi recipients =
        bind (quote_all recipients no_quotes) λ q. ret (ok (total q))
