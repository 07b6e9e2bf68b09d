-- ===== src/Permissions/Multi/Runs.antt =====
-- The runs of a quote for several recipients.
use mathlib.Core.List.{append-nil, append_assoc}
use rust_messagebox_client.Prelude.{
  String, ◌<>◌, ◌≡◌, refl, false, Option, none, some, List, [], ◌∷◌, ◌++◌, All, All-map, All-append,
  ◌⊎◌, inl, inr,
}
use rust_messagebox_client.Prelude.Dict
use rust_messagebox_client.Error.{Result, ok, err, Fallible, display}
use rust_messagebox_client.Types.Permissions.{QuoteBody}
use rust_messagebox_client.Types.SendList.{RecipientQuote, MessageBoxMultiQuote}
use rust_messagebox_client.Deps.{Deps}
use rust_messagebox_client.Io.{Response}
use rust_messagebox_client.Io.Runs.{Event, Extends, AllRuns, AllRuns-bind, AllRuns-Extends}
use rust_messagebox_client.Client.Http.Got.{Got, GotOk, get_json-Got}
use rust_messagebox_client.Session.{Client}
use rust_messagebox_client.Permissions.Multi.{
  Quotes, no_quotes, unquoted, quoted, note_failed, note_parsed, note_agent, note_reply, quote_one,
  quote_all, host_for, total, get_message_box_quote_multi,
}
use rust_messagebox_client.Permissions.Multi.Sums.{
  is_payable, Adds, Totals, note_failed-Adds, note_fees-Adds, note_fees-quotes, note_agent-Adds,
  nothing-Adds, error_status, parse_error_status, total-Totals,
}

module _ (D : Deps) (client : Client) (override_host : Option String) (message_box : String) where
  -- Where a quote is from: a reply of some host for the recipient, or none came that could be read
  -- and the quote has no fees.
  abbrev pub Quoted : List (Event D) → RecipientQuote → Type 0
  Quoted log rq =
      ((status : String) × (rq ≡ unquoted rq.recipient message_box status)
        × (is_payable rq ≡ false))
      ⊎ ((host : String) × (response : Response) × (quote : QuoteBody) × Got
            (host
              <> ("/permissions/quote?recipient="
                  <> (rq.recipient <> ("&messageBox=" <> message_box))))
            log response
          × (D.quote_response response.body ≡ ok quote)
          × (rq ≡ quoted rq.recipient message_box quote.delivery_fee quote.recipient_fee))

  Quoted-Extends :
      (log log' : List (Event D))
      → Extends log log'
      → (rq : RecipientQuote) → Quoted log rq
      → Quoted log' rq
  Quoted-Extends log log' ext rq (inl failed) = inl failed
  Quoted-Extends log log' ext rq (inr (host, response, quote, (seen, fine), parsed, same)) =
      inr (host, response, quote, (ext _ seen, fine), parsed, same)

  abbrev Holds : List String → List (Event D) → Quotes → Type 0
  Holds recipients log q = Adds recipients q × All (Quoted log) q.quotes_by_recipient

  module _ (recipient host : String) where
    abbrev url : String
    url =
        host <> ("/permissions/quote?recipient=" <> (recipient <> ("&messageBox=" <> message_box)))

    failed-Holds :
        (recipients : List String) (status : String) (log : List (Event D)) (q : Quotes)
        → is_payable (unquoted recipient message_box status) ≡ false
        → Holds recipients log q
        → Holds (recipients ++ recipient ∷ []) log (note_failed recipient message_box status q)
    unfolding note_failed
    failed-Holds recipients status log q h (a, all) = (
      note_failed-Adds recipients recipient message_box status q h a,
      All-append (Quoted log) q.quotes_by_recipient (unquoted recipient message_box status) all
          (inl (status, refl, h)),
    )

    parsed-Holds :
        (recipients : List String) (response : Response) (r : Result QuoteBody String)
        (log : List (Event D)) (q : Quotes)
        → Got url log response
        → D.quote_response response.body ≡ r
        → Holds recipients log q
        → Holds (recipients ++ recipient ∷ []) log (note_parsed recipient message_box r q)
    parsed-Holds recipients response (err e) log q got e' h =
        failed-Holds recipients "parse_error" log q (parse_error_status recipient message_box) h
    parsed-Holds recipients response (ok quote) log q got parsed (a, all) = (
      note_fees-Adds recipients recipient message_box quote.delivery_fee quote.recipient_fee q a,
      rw (note_fees-quotes recipient message_box quote.delivery_fee quote.recipient_fee q) (
          All-append (Quoted log) q.quotes_by_recipient
            (quoted recipient message_box quote.delivery_fee quote.recipient_fee) all
            (inr (host, response, quote, got, parsed, refl))),
    )

    agent-Holds :
        (recipients : List String) (key : Option String) (log : List (Event D)) (q : Quotes)
        → Holds recipients log q
        → Holds recipients log (note_agent host key q)
    agent-Holds recipients none log q h = h
    agent-Holds recipients (some key) log q (a, all) =
        (note_agent-Adds recipients host (some key) q a, all)

    reply-Holds :
        (recipients : List String) (before log : List (Event D)) (r : Fallible Response)
        (q : Quotes)
        → GotOk url before log r
        → Holds recipients before q
        → Holds
            (recipients ++ recipient ∷ [])
            log
            (note_reply D client override_host message_box recipient host r q)
    reply-Holds recipients before log (err e) q ext (a, all) =
        failed-Holds recipients ("error: " <> display e) log q
          (error_status recipient message_box (display e))
          (
            a,
            All-map (Quoted before) (Quoted log) q.quotes_by_recipient
                (Quoted-Extends before log ext) all,
          )
    reply-Holds recipients before log (ok response) q (ext, got) (a, all) =
        let agent = Dict.lookup "x-bsv-auth-identity-key" response.headers in
        parsed-Holds recipients response (D.quote_response response.body) log
          (note_agent host agent q) got refl
          (agent-Holds recipients agent log q (
            a,
            All-map (Quoted before) (Quoted log) q.quotes_by_recipient
                (Quoted-Extends before log ext) all,
          ))

  quote_one-Holds :
      (recipient : String) (recipients : List String) (q : Quotes) (log : List (Event D))
      → Holds recipients log q
      → AllRuns
          (Holds (recipients ++ recipient ∷ []))
          log
          (quote_one D client override_host message_box recipient q)
  unfolding quote_one
  quote_one-Holds recipient recipients q log (a, all) =
      AllRuns-bind (λ log' _. Extends log log') (Holds (recipients ++ recipient ∷ [])) log
        (host_for D client override_host recipient) _
        (AllRuns-Extends log (host_for D client override_host recipient))
        λ log' host ext.
          AllRuns-bind (GotOk (url recipient host) log') (Holds (recipients ++ recipient ∷ [])) log'
            _ _ (get_json-Got (url recipient host) log')
            λ log'' r got. reply-Holds recipient host recipients log' log'' r q got (
              a,
              All-map (Quoted log) (Quoted log') q.quotes_by_recipient (Quoted-Extends log log' ext)
                  all,
            )

  quote_all-Holds :
      (rest recipients : List String) (q : Quotes) (log : List (Event D))
      → Holds recipients log q
      → AllRuns
          (Holds (recipients ++ rest))
          log
          (quote_all D client override_host message_box rest q)
  unfolding quote_all
  quote_all-Holds [] recipients q log h = rw (append-nil recipients) h
  quote_all-Holds (recipient ∷ rest) recipients q log h =
      AllRuns-bind (Holds (recipients ++ recipient ∷ [])) (Holds (recipients ++ recipient ∷ rest))
        log (quote_one D client override_host message_box recipient q) _
        (quote_one-Holds recipient recipients q log h)
        λ log' q' h'.
          rw (← append_assoc recipients (recipient ∷ []) rest)
            (quote_all-Holds rest (recipients ++ recipient ∷ []) q' log' h')

  -- What is known of a quote for several recipients.
  abbrev pub QuotedAll : List String → List (Event D) → Fallible MessageBoxMultiQuote → Type 0
  QuotedAll recipients log (ok m) = Totals recipients m × All (Quoted log) m.quotes_by_recipient
  QuotedAll recipients log (err _) = ⊥

  -- In every run, quotes for several recipients come as a result, one for each recipient in their
  -- order. Each quote has the fees of a host's reply of status 200 to 299 for that recipient, or no
  -- fees and a status of failure. The blocked recipients are those with a negative recipient fee or
  -- without a quote, and the totals are the exact sums of the fees of all others, wrapped to 64
  -- bits.
  pub get_message_box_quote_multi-QuotedAll :
      (recipients : List String) (log : List (Event D))
      → AllRuns
          (QuotedAll recipients)
          log
          (get_message_box_quote_multi D client override_host message_box recipients)
  unfolding get_message_box_quote_multi total
  get_message_box_quote_multi-QuotedAll recipients log =
      AllRuns-bind (Holds recipients) (QuotedAll recipients) log
        (quote_all D client override_host message_box recipients no_quotes) _
        (quote_all-Holds recipients [] no_quotes log (nothing-Adds, tt))
        (λ log' q (a, all). (total-Totals recipients q a, all))
