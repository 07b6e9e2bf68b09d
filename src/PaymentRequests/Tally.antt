-- ===== src/PaymentRequests/Tally.antt =====
-- How often a message id has been sorted, field by field of `Sorting`, and what each verdict adds.
use rust_messagebox_client.Prelude.{
  count, count-append, ℕ, ◌+◌, String, ◌≡◌, refl, ap, Bool, true, false, List, [], ◌∷◌, ◌++◌, map,
  arith, if◌then◌else◌,
}
use rust_messagebox_client.Types.{PeerMessage, PaymentRequestMessage, IncomingPaymentRequest}
use rust_messagebox_client.PaymentRequests.{
  Parsed, Sorting, ack_ids, is_cancellation, Verdict, cancellation, active, malformed, expired,
  cancelled_original, out_of_range, note_malformed, note_cancellation, file,
}

abbrev pub result_ids : Sorting → List String
result_ids s = map (λ (r : IncomingPaymentRequest). r.message_id) s.result

abbrev pub inbox_ids : List PeerMessage → List String
inbox_ids = map (λ (m : PeerMessage). m.message_id)

-- How often an id has been sorted.
abbrev tally : String → Sorting → ℕ
tally a s = count a (result_ids s) + count a (ack_ids s)

-- Its parts, which the operations change one at a time.
abbrev pub parts : String → Sorting → ℕ
parts a s =
    count a (result_ids s)
    + (count a s.expired_ids
        + (count a s.cancelled_original_ids
            + (count a s.cancellation_ids
                + (count a s.out_of_range_ids + count a s.malformed_ids))))

pub tally-parts : (a : String) (s : Sorting) → tally a s ≡ parts a s
tally-parts a s = omega (
  arith,
  count-append a s.expired_ids s.cancelled_original_ids,
  count-append a (s.expired_ids ++ s.cancelled_original_ids) s.cancellation_ids,
  count-append a (s.expired_ids ++ s.cancelled_original_ids ++ s.cancellation_ids)
      s.out_of_range_ids,
  count-append a
      (s.expired_ids ++ s.cancelled_original_ids ++ s.cancellation_ids ++ s.out_of_range_ids)
      s.malformed_ids,
)

abbrev pub one : String → PeerMessage → ℕ
one a msg = count a (msg.message_id ∷ [])

map-append :
    (xs : List IncomingPaymentRequest) (r : IncomingPaymentRequest)
    → map (λ (r : IncomingPaymentRequest). r.message_id) (xs ++ r ∷ [])
      ≡ map (λ (r : IncomingPaymentRequest). r.message_id) xs ++ r.message_id ∷ []
map-append [] r = refl
map-append (x ∷ xs) r = ap (λ (t : List String). x.message_id ∷ t) (map-append xs r)

pub note_malformed-parts :
    (a : String) (msg : PeerMessage) (s : Sorting)
    → parts a (note_malformed msg s) ≡ parts a s + one a msg
unfolding note_malformed
note_malformed-parts a msg s =
    let e = count-append a s.malformed_ids (msg.message_id ∷ []) in omega (arith, e)

pub note_cancellation-parts :
    (a : String) (valid : Bool) (msg : PeerMessage) (body : PaymentRequestMessage) (s : Sorting)
    → parts a (note_cancellation valid msg body s) ≡ parts a s + one a msg
unfolding note_cancellation
note_cancellation-parts a false msg body s = note_malformed-parts a msg s
note_cancellation-parts a true msg body s =
    let e = count-append a s.cancellation_ids (msg.message_id ∷ []) in omega (arith, e)

-- What a verdict sorts of a message: itself, or nothing when it was sorted before.
abbrev pub Files : PeerMessage → PaymentRequestMessage → Verdict → Type 0
Files msg body cancellation = is_cancellation body ≡ true
Files msg body (active r) = (is_cancellation body ≡ false) × (r.message_id ≡ msg.message_id)
Files msg body v = is_cancellation body ≡ false

abbrev left_over : String → Parsed → ℕ
left_over a (msg, body) = if is_cancellation body then 0 else one a msg

pub file-parts :
    (a : String) (msg : PeerMessage) (body : PaymentRequestMessage) (v : Verdict) (s : Sorting)
    → Files msg body v
    → parts a (file msg v s) ≡ parts a s + left_over a (msg, body)
unfolding file
file-parts a msg body cancellation s h = rw h (omega arith)
file-parts a msg body malformed s h = rw h (note_malformed-parts a msg s)
file-parts a msg body expired s h =
    rw h (let e = count-append a s.expired_ids (msg.message_id ∷ []) in omega (arith, e))
file-parts a msg body cancelled_original s h =
    rw h (let e = count-append a s.cancelled_original_ids (msg.message_id ∷ []) in omega (arith, e))
file-parts a msg body out_of_range s h =
    rw h (let e = count-append a s.out_of_range_ids (msg.message_id ∷ []) in omega (arith, e))
file-parts a msg body (active r) s h =
    rw (h.0, map-append s.result r, h.1)
      (let e = count-append a (result_ids s) (msg.message_id ∷ []) in omega (arith, e))

-- How many of the parsed messages with an id are cancellations, and how many are not.
abbrev pub cancellations : String → List Parsed → ℕ
cancellations a [] = 0
cancellations a ((msg, body) ∷ rest) =
    let others = cancellations a rest in if is_cancellation body then one a msg + others else others

abbrev pub requests : String → List Parsed → ℕ
requests a [] = 0
requests a ((msg, body) ∷ rest) = left_over a (msg, body) + requests a rest
