-- ===== src/Websocket/Acks.antt =====
-- The pending acknowledgements of `MessageBoxWebSocket` (src/websocket.rs): a queue of waiters for
-- each key `sendMessageAck-{roomId}`, resolved oldest first.
pub mod Fifo
pub mod Reached
use rust_messagebox_client.Prelude.{
  ℕ, String, Bool, true, false, Option, none, some, List, [], ◌∷◌, ◌++◌,
}
use rust_messagebox_client.Prelude.Dict
use rust_messagebox_client.Prelude.Dict.{Dict}

-- What the receiver of a waiter's oneshot channel gets: the value sent, or an error because the
-- sender was dropped.
pub data Outcome : Type 0 where
  sent : Bool → Outcome
  closed : Outcome

-- A waiter is the number of its channel. `settled` lists what each channel got, oldest first.
pub record Acks : Type 0 where
  pub queues : Dict (List ℕ)
  pub settled : List (ℕ × Outcome)

abbrev pub queue_at : String → Acks → List ℕ
queue_at key s = elim (Dict.lookup key s.queues) [ none ↦ [] | some q ↦ q ]

-- The end of each handler: `if queue.is_empty() { guard.remove(&key); }` on the queue in place.
abbrev pub store_queue : String → List ℕ → Dict (List ℕ) → Dict (List ℕ)
store_queue key [] queues = Dict.remove key queues
store_queue key (w ∷ q) queues = Dict.insert key (w ∷ q) queues

-- `entry(ack_key).or_default().push_back(ack_tx)` of `emit_send_message`, before the emit.
unfoldable pub enqueue : String → ℕ → Acks → Acks
enqueue key w s = record s { queues = Dict.insert key (queue_at key s ++ w ∷ []) s.queues }

-- `queue.pop_front()`, what to do with the waiter, and the queue without it.
abbrev pub pop_front : String → (ℕ → Outcome) → List ℕ → Acks → Acks
pop_front key outcome [] s = record s { queues = store_queue key [] s.queues }
pop_front key outcome (w ∷ q) s = record {
  queues = store_queue key q s.queues;
  settled = s.settled ++ (w, outcome w) ∷ [];
}

-- The dispatcher on a `sendMessageAck-` event: the oldest waiter is sent the status.
unfoldable pub on_ack : String → Bool → Acks → Acks
on_ack key success s = elim (Dict.lookup key s.queues) [
  | none ↦ s
  | some q ↦ pop_front key (λ _. sent success) q s
]

-- `remove_pending_ack`: the oldest waiter is dropped.
unfoldable pub remove_pending_ack : String → Acks → Acks
remove_pending_ack key s = elim (Dict.lookup key s.queues) [
  | none ↦ s
  | some q ↦ pop_front key (λ _. closed) q s
]

-- `queue.pop_back()`: the queue without its last waiter, and that waiter.
abbrev pub split_last : List ℕ → List ℕ × Option ℕ
split_last [] = ([], none)
split_last (w ∷ []) = ([], some w)
split_last (w ∷ v ∷ q) = let (init, last) = split_last (v ∷ q) in (w ∷ init, last)

abbrev pub drop_waiter : Option ℕ → List (ℕ × Outcome) → List (ℕ × Outcome)
drop_waiter none settled = settled
drop_waiter (some w) settled = settled ++ (w, closed) ∷ []

-- The error branch of `emit_send_message`: the last waiter is dropped.
unfoldable pub emit_failed : String → Acks → Acks
emit_failed key s = elim (Dict.lookup key s.queues) [
  | none ↦ s
  | some q ↦
      let (init, last) = split_last q in
      record { queues = store_queue key init s.queues; settled = drop_waiter last s.settled }
]

abbrev pub send_false : List ℕ → List (ℕ × Outcome)
send_false [] = []
send_false (w ∷ q) = (w, sent false) ∷ send_false q

abbrev pub send_false_all : Dict (List ℕ) → List (ℕ × Outcome)
send_false_all [] = []
send_false_all ((key, q) ∷ queues) = send_false q ++ send_false_all queues

-- The draining of `disconnect`: every waiter is sent `false`.
unfoldable pub drain : Acks → Acks
drain s = record { queues = []; settled = s.settled ++ send_false_all s.queues }
