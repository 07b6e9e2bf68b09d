-- ===== src/Client/Dedup/Delivery.antt =====
-- `exactly_once` as a subscriber sees it, from the empty set that the wrapper starts with.
use rust_messagebox_client.Prelude.{
  ℕ, ◌<◌, ◌≤◌, String, ◌≡◌, refl, true, List, [], length, contains, arith,
}
use rust_messagebox_client.Types.{AuthenticatedPeerMessage}
use rust_messagebox_client.Client.Dedup.{deliver_all, ids}
use rust_messagebox_client.Client.Dedup.Invariant.{empty, empty-IsValid}
use rust_messagebox_client.Client.Dedup.Window.{
  Spaced, first_seen, deliver_all-Delivered, deliver_all-eq-first_seen_from,
}

-- For every capacity above 0 and every stream of arrivals: an id that reaches the callback is not
-- among the `capacity` ids that reached it just before, and every id that arrives reaches it.
pub exactly_once-Spaced :
    (capacity : ℕ) (msgs : List AuthenticatedPeerMessage)
    → 0 < capacity
    → Spaced capacity [] (ids (deliver_all (empty capacity) msgs).1)
      × ((id : String)
          → contains (ids msgs) id ≡ true
          → contains (ids (deliver_all (empty capacity) msgs).1) id ≡ true)
exactly_once-Spaced capacity msgs h =
    let r = deliver_all-Delivered (empty capacity) [] msgs (empty-IsValid capacity h) refl in
    (r.spaced, r.arrived)

-- For every capacity above 0 and every stream with at most `capacity` different ids: the callback
-- gets the first message of each id, in the order of arrival, and nothing else.
pub exactly_once-eq-first_seen :
    (capacity : ℕ) (msgs : List AuthenticatedPeerMessage)
    → 0 < capacity
    → length (first_seen [] msgs) ≤ capacity
    → (deliver_all (empty capacity) msgs).1 ≡ first_seen [] msgs
exactly_once-eq-first_seen capacity msgs h fits =
    deliver_all-eq-first_seen_from (empty capacity) [] msgs (empty-IsValid capacity h) refl
      (omega arith)
