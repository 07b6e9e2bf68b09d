-- ===== src/Permissions/Multi/Sums.antt =====
-- What the quotes, the blocked recipients and the totals of a quote for several recipients are.
use Prim.Native.Char.{code}
use text.Mathlib.TextLemmas.{cons-append}
use mathlib.Core.Logic.{ite}
use rust_messagebox_client.Prelude.{
  ℕ, String, ◌<>◌, ◌≡◌, refl, Bool, true, false, not, ◌||◌, Option, none, some, List, [], ◌∷◌, ◌++◌,
  map, arith, ◌=?◌, string_dec, ap, ◌≢◌, map-append_one, map-select-append_one, zero, suc, select,
}
use rust_messagebox_client.Prelude.Int.{
  ℤ, pos, negsuc, is_negative, add_i64, ◌+ℤ◌, wrap_i64, sum, sum-append, add_i64-wrap_i64,
  add_i64-wrap_i64-wrap_i64,
}
use rust_messagebox_client.Types.SendList.{RecipientQuote, MessageBoxMultiQuote}
use rust_messagebox_client.Permissions.Multi.{
  Quotes, no_quotes, unquoted, quoted, note_failed, note_fees, note_agent, total,
}

-- The quote came, and the recipient does not refuse.
abbrev pub is_payable : RecipientQuote → Bool
is_payable rq = rq.status =? "always_allow" || rq.status =? "payment_required"

abbrev pub payable : List RecipientQuote → List RecipientQuote
payable = select is_payable

abbrev pub recipients_of : List RecipientQuote → List String
recipients_of = map (λ (rq : RecipientQuote). rq.recipient)

abbrev pub delivery_fees : List RecipientQuote → List ℤ
delivery_fees rqs = map (λ (rq : RecipientQuote). rq.delivery_fee) (payable rqs)

abbrev pub recipient_fees : List RecipientQuote → List ℤ
recipient_fees rqs = map (λ (rq : RecipientQuote). rq.recipient_fee) (payable rqs)

-- The variables after some recipients.
pub record Adds (recipients : List String) (q : Quotes) : Type 0 where
  pub asked : recipients_of q.quotes_by_recipient ≡ recipients
  pub refused :
      q.blocked_recipients
      ≡ recipients_of (select (λ rq. not (is_payable rq)) q.quotes_by_recipient)
  pub delivery : q.total_delivery_fee ≡ wrap_i64 (sum (delivery_fees q.quotes_by_recipient))
  pub fee : q.total_recipient_fee ≡ wrap_i64 (sum (recipient_fees q.quotes_by_recipient))

-- The code of the first character.
abbrev first : String → ℕ
first String.[] = 0
first (String.◌∷◌ c s) = code c

differ : (s t : String) → first s ≢ first t → (s =? t) ≡ false
differ s t h = elim (string_dec s t) as (λ d. ite d true false ≡ false) [
  | yes p ↦ absurd (h (ap first p))
  | no q ↦ refl
]

pub error_status : (a b e : String) → is_payable (unquoted a b ("error: " <> e)) ≡ false
error_status a b e =
    let starts : first ("error: " <> e) ≡ 101 = ap first (cons-append _ "rror: " e) in
    let allowed = differ ("error: " <> e) "always_allow" (λ p. omega arith) in
    let paid = differ ("error: " <> e) "payment_required" (λ p. omega arith) in rw (allowed, paid)

quoted_status : (a b : String) (d r : ℤ) → is_payable (quoted a b d r) ≡ not (is_negative r)
unfolding string_dec
quoted_status a b d (negsuc n) = refl
quoted_status a b (pos zero) (pos zero) = refl
quoted_status a b (pos (suc m)) (pos zero) = refl
quoted_status a b (negsuc m) (pos zero) = refl
quoted_status a b d (pos (suc n)) = refl

pub nothing-Adds : Adds [] no_quotes
unfolding wrap_i64
nothing-Adds = record { asked = refl; refused = refl; delivery = refl; fee = refl }

refused_one-Adds :
    (recipients : List String) (rq : RecipientQuote) (q : Quotes)
    → is_payable rq ≡ false
    → Adds recipients q
    → Adds (recipients ++ rq.recipient ∷ []) (record q {
      quotes_by_recipient = q.quotes_by_recipient ++ rq ∷ [];
      blocked_recipients = q.blocked_recipients ++ rq.recipient ∷ [];
    })
refused_one-Adds recipients rq q h a =
    let qs = q.quotes_by_recipient in
    record {
      asked = rw (map-append_one (λ (r : RecipientQuote). r.recipient) qs rq, a.asked);
      refused =
          rw
            (
              map-select-append_one (λ (r : RecipientQuote). r.recipient) (λ r. not (is_payable r))
                  qs rq,
              h,
            )
            (ap (λ (t : List String). t ++ rq.recipient ∷ []) a.refused);
      delivery =
          rw (map-select-append_one (λ (r : RecipientQuote). r.delivery_fee) is_payable qs rq, h)
            a.delivery;
      fee =
          rw (map-select-append_one (λ (r : RecipientQuote). r.recipient_fee) is_payable qs rq, h)
            a.fee;
    }

-- A fee joins a total.
joins :
    (total fee : ℤ) (fees : List ℤ)
    → total ≡ wrap_i64 (sum fees)
    → add_i64 total fee ≡ wrap_i64 (sum (fees ++ fee ∷ []))
joins total fee fees h = rw (h, sum-append fees fee) (add_i64-wrap_i64 (sum fees) fee)

payable_one-Adds :
    (recipients : List String) (rq : RecipientQuote) (q : Quotes)
    → is_payable rq ≡ true
    → Adds recipients q
    → Adds (recipients ++ rq.recipient ∷ []) (record q {
      quotes_by_recipient = q.quotes_by_recipient ++ rq ∷ [];
      total_delivery_fee = add_i64 q.total_delivery_fee rq.delivery_fee;
      total_recipient_fee = add_i64 q.total_recipient_fee rq.recipient_fee;
    })
payable_one-Adds recipients rq q h a =
    let qs = q.quotes_by_recipient in
    record {
      asked = rw (map-append_one (λ (r : RecipientQuote). r.recipient) qs rq, a.asked);
      refused =
          rw
            (
              map-select-append_one (λ (r : RecipientQuote). r.recipient) (λ r. not (is_payable r))
                  qs rq,
              h,
            )
            a.refused;
      delivery =
          rw (map-select-append_one (λ (r : RecipientQuote). r.delivery_fee) is_payable qs rq, h)
            (joins _ rq.delivery_fee (delivery_fees qs) a.delivery);
      fee =
          rw (map-select-append_one (λ (r : RecipientQuote). r.recipient_fee) is_payable qs rq, h)
            (joins _ rq.recipient_fee (recipient_fees qs) a.fee);
    }

-- A recipient without a quote.
pub note_failed-Adds :
    (recipients : List String) (recipient message_box status : String) (q : Quotes)
    → is_payable (unquoted recipient message_box status) ≡ false
    → Adds recipients q
    → Adds (recipients ++ recipient ∷ []) (note_failed recipient message_box status q)
unfolding note_failed
note_failed-Adds recipients recipient message_box status q h a =
    refused_one-Adds recipients (unquoted recipient message_box status) q h a

pub parse_error_status : (a b : String) → is_payable (unquoted a b "parse_error") ≡ false
unfolding string_dec
parse_error_status a b = refl

pub note_fees-Adds :
    (recipients : List String) (recipient message_box : String) (d r : ℤ) (q : Quotes)
    → Adds recipients q
    → Adds (recipients ++ recipient ∷ []) (note_fees recipient message_box d r q)
unfolding note_fees
note_fees-Adds recipients recipient message_box d (pos n) q a =
    payable_one-Adds recipients (quoted recipient message_box d (pos n)) q
      (quoted_status recipient message_box d (pos n)) a
note_fees-Adds recipients recipient message_box d (negsuc n) q a =
    refused_one-Adds recipients (quoted recipient message_box d (negsuc n)) q
      (quoted_status recipient message_box d (negsuc n)) a

-- Whether it pays or not, a recipient gets its quote.
pub note_fees-quotes :
    (recipient message_box : String) (d r : ℤ) (q : Quotes)
    → (note_fees recipient message_box d r q).quotes_by_recipient
      ≡ q.quotes_by_recipient ++ quoted recipient message_box d r ∷ []
unfolding note_fees
note_fees-quotes recipient message_box d (pos n) q = refl
note_fees-quotes recipient message_box d (negsuc n) q = refl

pub note_agent-Adds :
    (recipients : List String) (host : String) (key : Option String) (q : Quotes)
    → Adds recipients q
    → Adds recipients (note_agent host key q)
note_agent-Adds recipients host none q a = a
note_agent-Adds recipients host (some key) q a = record {
  asked = a.asked;
  refused = a.refused;
  delivery = a.delivery;
  fee = a.fee;
}

-- The result of the quotes: the same, and the exact sum of all fees, wrapped.
pub record Totals (recipients : List String) (m : MessageBoxMultiQuote) : Type 0 where
  pub asked : recipients_of m.quotes_by_recipient ≡ recipients
  pub refused :
      m.blocked_recipients
      ≡ recipients_of (select (λ rq. not (is_payable rq)) m.quotes_by_recipient)
  pub totals :
      m.totals
      ≡ some (record {
        delivery_fees = wrap_i64 (sum (delivery_fees m.quotes_by_recipient));
        recipient_fees = wrap_i64 (sum (recipient_fees m.quotes_by_recipient));
        total_for_payable_recipients = wrap_i64 (
            sum (delivery_fees m.quotes_by_recipient)
            +ℤ sum (recipient_fees m.quotes_by_recipient));
      })

pub total-Totals :
    (recipients : List String) (q : Quotes) → Adds recipients q → Totals recipients (total q)
unfolding total
total-Totals recipients q a = record {
  asked = a.asked;
  refused = a.refused;
  totals = rw (a.delivery, a.fee, add_i64-wrap_i64-wrap_i64) refl;
}
