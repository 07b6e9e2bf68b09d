-- ===== src/PaymentRequests/Masked.antt =====
-- Two valid cancellations of one request id in the inbox.
use rust_messagebox_client.Prelude.{◌≡◌, true, false, ◌=?◌, =?_refl, arith}
use rust_messagebox_client.Prelude.Dict.{lookup-insert}
use rust_messagebox_client.Types.{PeerMessage, PaymentRequestMessage}
use rust_messagebox_client.PaymentRequests.{Sorting, note_cancellation, cancelled_by}

noted :
    (s : Sorting) (by_msg : PeerMessage) (by_body : PaymentRequestMessage) (msg : PeerMessage)
    (body : PaymentRequestMessage)
    → by_body.request_id ≡ body.request_id
    → cancelled_by (note_cancellation true by_msg by_body s).cancelled_requests body msg
      ≡ (by_msg.sender =? msg.sender)
unfolding note_cancellation
noted s by_msg by_body msg body same = ground (
  arith,
  lookup-insert body.request_id by_body.request_id by_msg.sender s.cancelled_requests,
  =?_refl body.request_id,
)

-- After a valid cancellation by the request's own sender the request counts as cancelled; after a
-- valid cancellation of the same id by another sender, later in the inbox, it does not any more.
pub masked_cancellation :
    (s : Sorting) (msg own other : PeerMessage) (body own_body other_body : PaymentRequestMessage)
    → own_body.request_id ≡ body.request_id
    → other_body.request_id ≡ body.request_id
    → own.sender ≡ msg.sender
    → (other.sender =? msg.sender) ≡ false
    → (cancelled_by (note_cancellation true own own_body s).cancelled_requests body msg ≡ true)
      × (cancelled_by
            (note_cancellation true other other_body
              (note_cancellation true own own_body s)).cancelled_requests
            body
            msg
          ≡ false)
masked_cancellation s msg own other body own_body other_body p q same differ =
    let own_noted = noted s own own_body msg body p in
    let other_noted = noted (note_cancellation true own own_body s) other other_body msg body q in
    (rw (own_noted, same) (=?_refl msg.sender), rw other_noted differ)
