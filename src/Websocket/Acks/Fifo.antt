-- ===== src/Websocket/Acks/Fifo.antt =====
-- Acknowledgements meet waiters first in, first out; and where cleanup takes another's waiter.
use mathlib.Core.List.{append-nil, append_assoc}
use rust_messagebox_client.Prelude.{
  ℕ, String, ◌≡◌, refl, sym, ap, ◌∙◌, Bool, false, Option, none, some, List, [], ◌∷◌, ◌++◌, arith,
  length, ◌=?◌,
}
use rust_messagebox_client.Prelude.Dict
use rust_messagebox_client.Prelude.Dict.{Dict, lookup-insert, lookup-remove}
use rust_messagebox_client.Websocket.Acks.{
  Acks, Outcome, sent, closed, queue_at, enqueue, on_ack, remove_pending_ack, emit_failed,
  split_last,
}

-- No queue is stored empty.
abbrev pub stored : List ℕ → Option (List ℕ)
stored [] = none
stored (w ∷ q) = some (w ∷ q)

-- What an operation at one key leaves there and settles; the other keys stay as they are.
pub record Acts (key : String) (s t : Acks) (q : List ℕ) (done : List (ℕ × Outcome)) : Type 0 where
  pub here : Dict.lookup key t.queues ≡ stored q
  pub settles : t.settled ≡ s.settled ++ done
  pub elsewhere :
      (j : String) → (j =? key) ≡ false → Dict.lookup j t.queues ≡ Dict.lookup j s.queues

enqueue-Acts :
    (key : String) (w : ℕ) (q : List ℕ) (s : Acks)
    → Dict.lookup key s.queues ≡ stored q
    → Acts key s (enqueue key w s) (q ++ w ∷ []) []
unfolding enqueue
enqueue-Acts key w [] s e = record {
  here = ground (arith, lookup-insert key key (queue_at key s ++ w ∷ []) s.queues);
  settles = sym (append-nil s.settled);
  elsewhere = λ j h. ground (arith, lookup-insert j key (queue_at key s ++ w ∷ []) s.queues);
}
enqueue-Acts key w (x ∷ q) s e = record {
  here = ground (arith, lookup-insert key key (queue_at key s ++ w ∷ []) s.queues);
  settles = sym (append-nil s.settled);
  elsewhere = λ j h. ground (arith, lookup-insert j key (queue_at key s ++ w ∷ []) s.queues);
}

module _ (key : String) (w : ℕ) where
  on_ack-Acts :
      (b : Bool) (q : List ℕ) (s : Acks)
      → Dict.lookup key s.queues ≡ some (w ∷ q)
      → Acts key s (on_ack key b s) q ((w, sent b) ∷ [])
  unfolding on_ack
  on_ack-Acts b [] s e = record {
    here = ground (arith, lookup-remove key key s.queues);
    settles = ground arith;
    elsewhere = λ j h. ground (arith, lookup-remove j key s.queues);
  }
  on_ack-Acts b (v ∷ q) s e = record {
    here = ground (arith, lookup-insert key key (v ∷ q) s.queues);
    settles = ground arith;
    elsewhere = λ j h. ground (arith, lookup-insert j key (v ∷ q) s.queues);
  }

  remove_pending_ack-Acts :
      (q : List ℕ) (s : Acks)
      → Dict.lookup key s.queues ≡ some (w ∷ q)
      → Acts key s (remove_pending_ack key s) q ((w, closed) ∷ [])
  unfolding remove_pending_ack
  remove_pending_ack-Acts [] s e = record {
    here = ground (arith, lookup-remove key key s.queues);
    settles = ground arith;
    elsewhere = λ j h. ground (arith, lookup-remove j key s.queues);
  }
  remove_pending_ack-Acts (v ∷ q) s e = record {
    here = ground (arith, lookup-insert key key (v ∷ q) s.queues);
    settles = ground arith;
    elsewhere = λ j h. ground (arith, lookup-insert j key (v ∷ q) s.queues);
  }

Acts-trans :
    {key : String} {s t u : Acks} {q p : List ℕ} {done more : List (ℕ × Outcome)}
    → Acts key s t q done
    → Acts key t u p more
    → Acts key s u p (done ++ more)
Acts-trans {s} {done} {more} a b = record {
  here = b.here;
  settles =
      b.settles
      ∙ ap (λ (l : List (ℕ × Outcome)). l ++ more) a.settles
      ∙ append_assoc s.settled done more;
  elsewhere = λ j h. b.elsewhere j h ∙ a.elsewhere j h;
}

-- Sends to one room, in order, and acknowledgements of it, in order.
pub enqueue_all : String → List ℕ → Acks → Acks
enqueue_all key [] s = s
enqueue_all key (w ∷ ws) s = enqueue_all key ws (enqueue key w s)

pub ack_all : String → List Bool → Acks → Acks
ack_all key [] s = s
ack_all key (b ∷ bs) s = ack_all key bs (on_ack key b s)

abbrev pub pair_up : List ℕ → List Bool → List (ℕ × Outcome)
pair_up (w ∷ ws) (b ∷ bs) = (w, sent b) ∷ pair_up ws bs
pair_up ws bs = []

enqueue_all-Acts :
    (key : String) (ws q : List ℕ) (s : Acks)
    → Dict.lookup key s.queues ≡ stored q
    → Acts key s (enqueue_all key ws s) (q ++ ws) []
unfolding enqueue_all
enqueue_all-Acts key [] q s e = record {
  here = rw append-nil e;
  settles = sym (append-nil s.settled);
  elsewhere = λ j h. refl;
}
enqueue_all-Acts key (w ∷ ws) q s e =
    let a = enqueue-Acts key w q s e in
    let rest = enqueue_all-Acts key ws (q ++ w ∷ []) (enqueue key w s) a.here in
    rw (← append_assoc q (w ∷ []) ws) (Acts-trans a rest)

ack_all-Acts :
    (key : String) (ws : List ℕ) (bs : List Bool) (s : Acks)
    → Dict.lookup key s.queues ≡ stored ws
    → length ws ≡ length bs
    → Acts key s (ack_all key bs s) [] (pair_up ws bs)
unfolding ack_all
ack_all-Acts key [] [] s e l = record {
  here = e;
  settles = sym (append-nil s.settled);
  elsewhere = λ j h. refl;
}
ack_all-Acts key [] (b ∷ bs) s e l = absurd (omega arith)
ack_all-Acts key (w ∷ ws) [] s e l = absurd (omega arith)
ack_all-Acts key (w ∷ ws) (b ∷ bs) s e l =
    let a = on_ack-Acts key w b ws s e in
    Acts-trans a (ack_all-Acts key ws bs (on_ack key b s) a.here (omega arith))

-- From a state in which nothing waits for the room: if as many acknowledgements arrive as sends
-- were made, the i-th send gets the status of the i-th acknowledgement, no queue is left for the
-- room, and the queues of other rooms are as they were.
pub acks_fifo :
    (key : String) (ws : List ℕ) (bs : List Bool) (s : Acks)
    → Dict.lookup key s.queues ≡ none
    → length ws ≡ length bs
    → Acts key s (ack_all key bs (enqueue_all key ws s)) [] (pair_up ws bs)
acks_fifo key ws bs s e l =
    let a = enqueue_all-Acts key ws [] s e in
    Acts-trans a (ack_all-Acts key ws bs (enqueue_all key ws s) a.here l)

-- A waiter whose send was refused by an acknowledgement `false` is gone from the queue; the cleanup
-- that its sender then runs drops the waiter of the next send to the room, which is still in
-- flight and now gets an error in place of its own acknowledgement.
pub cleanup_after_nack :
    (key : String) (a b : ℕ) (q : List ℕ) (s : Acks)
    → Dict.lookup key s.queues ≡ some (a ∷ b ∷ q)
    → Acts key s
        (remove_pending_ack key (on_ack key false s))
        q
        ((a, sent false) ∷ (b, closed) ∷ [])
cleanup_after_nack key a b q s e =
    let nack = on_ack-Acts key a false (b ∷ q) s e in
    Acts-trans nack (remove_pending_ack-Acts key b q (on_ack key false s) nack.here)

split_last-append : (q : List ℕ) (w : ℕ) → split_last (q ++ w ∷ []) ≡ (q, some w)
split_last-append [] w = refl
split_last-append (x ∷ []) w = refl
split_last-append (x ∷ y ∷ q) w = rw (split_last-append (y ∷ q) w)

snoc-stored : (q : List ℕ) (w : ℕ) → stored (q ++ w ∷ []) ≡ some (q ++ w ∷ [])
snoc-stored [] w = refl
snoc-stored (x ∷ q) w = refl

emit_failed-Acts :
    (key : String) (w : ℕ) (q : List ℕ) (s : Acks)
    → Dict.lookup key s.queues ≡ stored (q ++ w ∷ [])
    → Acts key s (emit_failed key s) q ((w, closed) ∷ [])
unfolding emit_failed
emit_failed-Acts key w [] s e = record {
  here = ground (arith, lookup-remove key key s.queues);
  settles = ground arith;
  elsewhere = λ j h. ground (arith, lookup-remove j key s.queues);
}
emit_failed-Acts key w (x ∷ q) s e = record {
  here = ground (arith, split_last-append (x ∷ q) w, lookup-insert key key (x ∷ q) s.queues);
  settles = ground (arith, split_last-append (x ∷ q) w);
  elsewhere =
      λ j h. ground (arith, split_last-append (x ∷ q) w, lookup-insert j key (x ∷ q) s.queues);
}

-- An emit that fails before any other send to its room is registered takes its own waiter back.
pub emit_failed-enqueue :
    (key : String) (w : ℕ) (q : List ℕ) (s : Acks)
    → Dict.lookup key s.queues ≡ stored q
    → Acts key s (emit_failed key (enqueue key w s)) q ((w, closed) ∷ [])
emit_failed-enqueue key w q s e =
    let a = enqueue-Acts key w q s e in
    Acts-trans a (emit_failed-Acts key w q (enqueue key w s) a.here)

-- If a second send to the room registers between a send's registration and the failure of its
-- emit, the failing send drops the second send's waiter and leaves its own in the queue.
pub emit_failed_race :
    (key : String) (a b : ℕ) (q : List ℕ) (s : Acks)
    → Dict.lookup key s.queues ≡ stored q
    → Acts key s
        (emit_failed key (enqueue key b (enqueue key a s)))
        (q ++ a ∷ [])
        ((b, closed) ∷ [])
emit_failed_race key a b q s e =
    let first = enqueue-Acts key a q s e in
    Acts-trans first (emit_failed-enqueue key b (q ++ a ∷ []) (enqueue key a s) first.here)
