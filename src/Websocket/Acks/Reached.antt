-- ===== src/Websocket/Acks/Reached.antt =====
-- The states of the pending acknowledgements (src/websocket.rs) that sends, acknowledgements,
-- timeouts, failed emits and a disconnect reach in any order.
use rust_messagebox_client.Prelude.{
  ℕ, ◌+◌, ◌≢◌, String, ◌≡◌, refl, ap, Bool, Option, none, some, List, [], ◌∷◌, ◌++◌, arith, ◌==◌,
  ◌=?◌, string_dec, inl, inr, Option-cases, Bool-cases, if◌then◌else◌,
}
use rust_messagebox_client.Prelude.Dict
use rust_messagebox_client.Prelude.Dict.{Dict, lookup-insert, lookup-remove}
use rust_messagebox_client.Websocket.Acks.{
  Acks, Outcome, sent, closed, queue_at, store_queue, pop_front, enqueue, on_ack,
  remove_pending_ack, split_last, drop_waiter, emit_failed, send_false, send_false_all, drain,
}

-- What one lock of the queues does. A send registers a waiter.
pub data Step : List ℕ → Acks → List ℕ → Acks → Type 0 where
  send : (ws : List ℕ) (s : Acks) (key : String) (w : ℕ) → Step ws s (w ∷ ws) (enqueue key w s)
  ack :
      (ws : List ℕ) (s : Acks) (key : String) (success : Bool) → Step ws s ws (on_ack key success s)
  timeout : (ws : List ℕ) (s : Acks) (key : String) → Step ws s ws (remove_pending_ack key s)
  emit_failure : (ws : List ℕ) (s : Acks) (key : String) → Step ws s ws (emit_failed key s)
  disconnected : (ws : List ℕ) (s : Acks) → Step ws s ws (drain s)

-- From a new connection, with the waiters that were registered.
pub data Reach : List ℕ → Acks → Type 0 where
  connected : Reach [] (record { queues = []; settled = [] })
  next : {ws vs : List ℕ} {s t : Acks} → Reach ws s → Step ws s vs t → Reach vs t

abbrev pub occurrences : ℕ → List ℕ → ℕ
occurrences w [] = 0
occurrences w (v ∷ vs) = (if v == w then 1 else 0) + occurrences w vs

occurrences-append :
    (w : ℕ) (xs ys : List ℕ) → occurrences w (xs ++ ys) ≡ occurrences w xs + occurrences w ys
occurrences-append w [] ys = omega arith
occurrences-append w (x ∷ xs) ys = omega (arith, occurrences-append w xs ys)

-- How often a waiter waits, over all keys, and how often its channel got something.
abbrev pub waiting : ℕ → Dict (List ℕ) → ℕ
waiting w [] = 0
waiting w ((_, q) ∷ d) = occurrences w q + waiting w d

abbrev pub settlings : ℕ → List (ℕ × Outcome) → ℕ
settlings w [] = 0
settlings w ((v, _) ∷ l) = (if v == w then 1 else 0) + settlings w l

settlings-append :
    (w : ℕ) (xs ys : List (ℕ × Outcome)) → settlings w (xs ++ ys) ≡ settlings w xs + settlings w ys
settlings-append w [] ys = omega arith
settlings-append w ((v, o) ∷ xs) ys = omega (arith, settlings-append w xs ys)

abbrev found : ℕ → Option (List ℕ) → ℕ
found w none = 0
found w (some q) = occurrences w q

-- One entry for a key, and none with an empty queue.
abbrev pub Tidy : Dict (List ℕ) → Type 0
Tidy [] = Unit
Tidy ((key, q) ∷ d) = (Dict.lookup key d ≡ none) × (q ≢ []) × Tidy d

insert-waiting :
    (w : ℕ) (key : String) (q : List ℕ) (d : Dict (List ℕ))
    → waiting w (Dict.insert key q d) + found w (Dict.lookup key d) ≡ waiting w d + occurrences w q
unfolding Dict.insert Dict.lookup
insert-waiting w key q [] = omega arith
insert-waiting w key q ((j, p) ∷ d) = ground (arith, insert-waiting w key q d)

remove-absent :
    (key : String) (d : Dict (List ℕ)) → Dict.lookup key d ≡ none → Dict.remove key d ≡ d
unfolding Dict.remove Dict.lookup
remove-absent key [] h = refl
remove-absent key ((j, p) ∷ d) h = ground (arith, remove-absent key d)

remove-waiting :
    (w : ℕ) (key : String) (d : Dict (List ℕ))
    → Tidy d
    → waiting w (Dict.remove key d) + found w (Dict.lookup key d) ≡ waiting w d
unfolding Dict.remove Dict.lookup string_dec
remove-waiting w key [] h = omega arith
remove-waiting w key ((j, p) ∷ d) (fresh, full, h) =
    ground (arith, remove-absent key d, remove-waiting w key d h)

insert-Tidy :
    (key : String) (q : List ℕ) (d : Dict (List ℕ)) → q ≢ [] → Tidy d → Tidy (Dict.insert key q d)
unfolding Dict.insert Dict.lookup string_dec
insert-Tidy key q [] n h = (refl, n, tt)
insert-Tidy key q ((j, p) ∷ d) n (fresh, full, h) = elim (Bool-cases (key =? j)) [
  | inl e ↦ rw e (let e' : Dict.lookup key d ≡ none = ground (arith, fresh) in (e', n, h))
  | inr e ↦
      rw e ((let l = lookup-insert j key q d in ground (arith, l)), full, insert-Tidy key q d n h)
]

remove-Tidy : (key : String) (d : Dict (List ℕ)) → Tidy d → Tidy (Dict.remove key d)
unfolding Dict.remove Dict.lookup
remove-Tidy key [] h = tt
remove-Tidy key ((j, p) ∷ d) (fresh, full, h) = elim (Bool-cases (key =? j)) [
  | inl e ↦ rw e (remove-Tidy key d h)
  | inr e ↦ rw e ((let l = lookup-remove j key d in ground (arith, l)), full, remove-Tidy key d h)
]

-- The end of a handler, on the queue that was there.
store_queue-waiting :
    (w : ℕ) (key : String) (q : List ℕ) (d : Dict (List ℕ))
    → Tidy d
    → waiting w (store_queue key q d) + found w (Dict.lookup key d) ≡ waiting w d + occurrences w q
store_queue-waiting w key [] d h = let e = remove-waiting w key d h in omega (arith, e)
store_queue-waiting w key (v ∷ q) d h = insert-waiting w key (v ∷ q) d

store_queue-Tidy :
    (key : String) (q : List ℕ) (d : Dict (List ℕ)) → Tidy d → Tidy (store_queue key q d)
store_queue-Tidy key [] d h = remove-Tidy key d h
store_queue-Tidy key (v ∷ q) d h = insert-Tidy key (v ∷ q) d (λ e. cc) h

-- Each registered waiter waits, or its channel has got something, exactly once.
pub record Conserved (ws : List ℕ) (s : Acks) : Type 0 where
  pub tidy : Tidy s.queues
  pub once : (w : ℕ) → waiting w s.queues + settlings w s.settled ≡ occurrences w ws

found-queue_at :
    (w : ℕ) (key : String) (s : Acks)
    → found w (Dict.lookup key s.queues) ≡ occurrences w (queue_at key s)
found-queue_at w key s = ground arith

snoc-ne-nil : (q : List ℕ) (v : ℕ) → q ++ v ∷ [] ≢ []
snoc-ne-nil [] v = λ e. cc
snoc-ne-nil (x ∷ q) v = λ e. cc

abbrev last_found : ℕ → Option ℕ → ℕ
last_found w none = 0
last_found w (some v) = if v == w then 1 else 0

split_last-occurrences :
    (w : ℕ) (q : List ℕ)
    → occurrences w (split_last q).0 + last_found w (split_last q).1 ≡ occurrences w q
split_last-occurrences w [] = refl
split_last-occurrences w (x ∷ []) = omega arith
split_last-occurrences w (x ∷ y ∷ q) = omega (arith, split_last-occurrences w (y ∷ q))

drop_waiter-settlings :
    (w : ℕ) (last : Option ℕ) (settled : List (ℕ × Outcome))
    → settlings w (drop_waiter last settled) ≡ settlings w settled + last_found w last
drop_waiter-settlings w none settled = omega arith
drop_waiter-settlings w (some v) settled =
    let more = settlings-append w settled ((v, closed) ∷ []) in omega (arith, more)

send_false-settlings : (w : ℕ) (q : List ℕ) → settlings w (send_false q) ≡ occurrences w q
send_false-settlings w [] = refl
send_false-settlings w (v ∷ q) = omega (arith, send_false-settlings w q)

send_false_all-settlings :
    (w : ℕ) (d : Dict (List ℕ)) → settlings w (send_false_all d) ≡ waiting w d
send_false_all-settlings w [] = refl
send_false_all-settlings w ((key, q) ∷ d) =
    let more = settlings-append w (send_false q) (send_false_all d) in
    omega (arith, more, send_false-settlings w q, send_false_all-settlings w d)

module _ (ws : List ℕ) (s : Acks) (c : Conserved ws s) where
  enqueue-Conserved : (key : String) (v : ℕ) → Conserved (v ∷ ws) (enqueue key v s)
  unfolding enqueue
  enqueue-Conserved key v = record {
    tidy =
        insert-Tidy key (queue_at key s ++ v ∷ []) s.queues (snoc-ne-nil (queue_at key s) v) c.tidy;
    once = λ w.
        let kept = insert-waiting w key (queue_at key s ++ v ∷ []) s.queues in
        let more = occurrences-append w (queue_at key s) (v ∷ []) in
        let f = found-queue_at w key s in let o = c.once w in omega (arith, kept, more, f, o);
  }

  pop_front-Conserved :
      (key : String) (outcome : ℕ → Outcome) (q : List ℕ)
      → Dict.lookup key s.queues ≡ some q
      → Conserved ws (pop_front key outcome q s)
  pop_front-Conserved key outcome [] e = record {
    tidy = store_queue-Tidy key [] s.queues c.tidy;
    once = λ w.
        let kept = store_queue-waiting w key [] s.queues c.tidy in
        let f = ap (found w) e in let o = c.once w in omega (arith, kept, f, o);
  }
  pop_front-Conserved key outcome (v ∷ q) e = record {
    tidy = store_queue-Tidy key q s.queues c.tidy;
    once = λ w.
        let kept = store_queue-waiting w key q s.queues c.tidy in
        let more = settlings-append w s.settled ((v, outcome v) ∷ []) in
        let f = ap (found w) e in let o = c.once w in omega (arith, kept, more, f, o);
  }

  on_ack-Conserved : (key : String) (success : Bool) → Conserved ws (on_ack key success s)
  unfolding on_ack
  on_ack-Conserved key success = elim (Option-cases (Dict.lookup key s.queues)) [
    | inl e ↦ rw (on_ack, e) c
    | inr (q, e) ↦ rw (on_ack, e) (pop_front-Conserved key (λ _. sent success) q e)
  ]

  remove_pending_ack-Conserved : (key : String) → Conserved ws (remove_pending_ack key s)
  unfolding remove_pending_ack
  remove_pending_ack-Conserved key = elim (Option-cases (Dict.lookup key s.queues)) [
    | inl e ↦ rw (remove_pending_ack, e) c
    | inr (q, e) ↦ rw (remove_pending_ack, e) (pop_front-Conserved key (λ _. closed) q e)
  ]

  emit_failed-Conserved : (key : String) → Conserved ws (emit_failed key s)
  unfolding emit_failed
  emit_failed-Conserved key = elim (Option-cases (Dict.lookup key s.queues)) [
    | inl e ↦ rw (emit_failed, e) c
    | inr (q, e) ↦
        rw (emit_failed, e)
          (record {
            tidy = store_queue-Tidy key (split_last q).0 s.queues c.tidy;
            once = λ w.
                let kept = store_queue-waiting w key (split_last q).0 s.queues c.tidy in
                let cut = split_last-occurrences w q in
                let more = drop_waiter-settlings w (split_last q).1 s.settled in
                let f = ap (found w) e in let o = c.once w in omega (arith, kept, cut, more, f, o);
          })
  ]

  drain-Conserved : Conserved ws (drain s)
  unfolding drain
  drain-Conserved = record {
    tidy = tt;
    once = λ w.
        let more = settlings-append w s.settled (send_false_all s.queues) in
        let all = send_false_all-settlings w s.queues in
        let o = c.once w in omega (arith, more, all, o);
  }

Step-Conserved : {ws vs : List ℕ} {s t : Acks} → Step ws s vs t → Conserved ws s → Conserved vs t
Step-Conserved (send ws s key w) c = enqueue-Conserved ws s c key w
Step-Conserved (ack ws s key success) c = on_ack-Conserved ws s c key success
Step-Conserved (timeout ws s key) c = remove_pending_ack-Conserved ws s c key
Step-Conserved (emit_failure ws s key) c = emit_failed-Conserved ws s c key
Step-Conserved (disconnected ws s) c = drain-Conserved ws s c

-- In every state that sends, acknowledgements, timeouts, failed emits and disconnects reach, in any
-- order and for any rooms: each waiter is as often in a queue or settled, together, as it was
-- registered, so no send is forgotten and none is settled twice; a key has one entry, and no entry
-- has an empty queue.
pub Reach-Conserved : {ws : List ℕ} {s : Acks} → Reach ws s → Conserved ws s
Reach-Conserved connected = record { tidy = tt; once = λ w. refl }
Reach-Conserved (next r step) = Step-Conserved step (Reach-Conserved r)
