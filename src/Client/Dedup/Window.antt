-- ===== src/Client/Dedup/Window.antt =====
-- What a stream of deliveries looks like: the ids that reach the callback.
use mathlib.Core.List.{append-nil, append_assoc}
use rust_messagebox_client.Prelude.{
  ℕ, suc, ◌+◌, ◌≤◌, ◌<◌, String, ◌≡◌, refl, sym, ap, ◌∙◌, true, false, List, [], ◌∷◌, ◌++◌, arith,
  length, leb, length-append, contains, contains-append, Bool-cases, inl, inr, if◌then◌else◌,
}
use rust_messagebox_client.Types.{AuthenticatedPeerMessage}
use rust_messagebox_client.Client.Dedup.{
  BoundedIdSet, insert, push, make_room, pop_oldest, exactly_once, deliver_all, ids,
}
use rust_messagebox_client.Client.Dedup.Invariant.{IsValid, insert-IsValid}

-- The last `n` of a list.
abbrev pub recent : ℕ → List String → List String
recent n [] = []
recent n (x ∷ xs) = if leb (suc (length xs)) n then x ∷ xs else recent n xs

recent_short : (n : ℕ) (xs : List String) → length xs ≤ n → recent n xs ≡ xs
recent_short n [] h = refl
recent_short n (x ∷ xs) h = ground arith

-- Each text is absent from the `n` texts before it.
abbrev pub Spaced : ℕ → List String → List String → Type 0
Spaced n before [] = Unit
Spaced n before (x ∷ xs) = (contains (recent n before) x ≡ false) × Spaced n (before ++ x ∷ []) xs

-- The queue after one more fresh id.
abbrev slide : ℕ → List String → String → List String
slide n [] a = a ∷ []
slide n (x ∷ xs) a = if leb n (suc (length xs)) then xs ++ a ∷ [] else x ∷ xs ++ a ∷ []

slide-recent :
    (n : ℕ) (before : List String) (a : String)
    → 0 < n
    → slide n (recent n before) a ≡ recent n (before ++ a ∷ [])
slide-recent n [] a h = ground arith
slide-recent n (x ∷ xs) a h = ground (
  arith,
  slide-recent n xs a h,
  length-append xs (a ∷ []),
  recent_short n (xs ++ a ∷ []),
  recent_short n xs,
)

order-pop_oldest :
    (s : BoundedIdSet) (id : String) (order : List String)
    → s.order ≡ order
    → 0 < s.capacity
    → (if leb s.capacity (length order) then pop_oldest s order else s).order ++ id ∷ []
      ≡ slide s.capacity order id
order-pop_oldest s id [] e h = ground arith
order-pop_oldest s id (x ∷ xs) e h = ground arith

order-push :
    (s : BoundedIdSet) (id : String)
    → 0 < s.capacity
    → (push (make_room s) id).order ≡ slide s.capacity s.order id
unfolding push make_room
order-push s id h = order-pop_oldest s id s.order refl h

capacity-pop_oldest :
    (s : BoundedIdSet) (order : List String) → (pop_oldest s order).capacity ≡ s.capacity
capacity-pop_oldest s [] = refl
capacity-pop_oldest s (x ∷ xs) = refl

pub capacity-insert : (s : BoundedIdSet) (id : String) → (insert s id).0.capacity ≡ s.capacity
unfolding insert push make_room
capacity-insert s id = ground (arith, capacity-pop_oldest s s.order)

-- The set after `insert`, by its queue.
record Inserted (s : BoundedIdSet) (id : String) (before : List String) : Type 0 where
  valid : IsValid (insert s id).0
  cap : (insert s id).0.capacity ≡ s.capacity
  known : contains s.order id ≡ true → insert s id ≡ (s, false)
  fresh : contains s.order id ≡ false → (insert s id).1 ≡ true
  slid : contains s.order id ≡ false → (insert s id).0.order ≡ recent s.capacity (before ++ id ∷ [])

insert-Inserted :
    (s : BoundedIdSet) (id : String) (before : List String)
    → IsValid s
    → s.order ≡ recent s.capacity before
    → Inserted s id before
unfolding insert
insert-Inserted s id before v e = record {
  valid = insert-IsValid s id v;
  cap = capacity-insert s id;
  known = λ h. ground (arith, v.members id);
  fresh = λ h. ground (arith, v.members id);
  slid = λ h.
      ground
        (arith, v.members id, order-push s id v.room, slide-recent s.capacity before id v.room);
}

shift : (xs : List String) (a : String) (zs : List String) → xs ++ a ∷ zs ≡ (xs ++ a ∷ []) ++ zs
shift xs a zs = sym (append_assoc xs (a ∷ []) zs)

contains-recent :
    (n : ℕ) (xs : List String) (a : String) → contains (recent n xs) a ≡ true → contains xs a ≡ true
contains-recent n [] a h = h
contains-recent n (x ∷ xs) a h = ground (arith, contains-recent n xs a)

pub deliver_all_nil : (s : BoundedIdSet) → deliver_all s [] ≡ (s, [])
unfolding deliver_all
deliver_all_nil s = refl

module _ (s : BoundedIdSet) (m : AuthenticatedPeerMessage)
    (msgs : List AuthenticatedPeerMessage) where
  pub deliver_all_known :
      insert s m.message_id ≡ (s, false) → deliver_all s (m ∷ msgs) ≡ deliver_all s msgs
  unfolding deliver_all exactly_once
  deliver_all_known e = rw e

  pub deliver_all_fresh :
      (insert s m.message_id).1 ≡ true
      → deliver_all s (m ∷ msgs) ≡ (
        (deliver_all (insert s m.message_id).0 msgs).0,
        m ∷ (deliver_all (insert s m.message_id).0 msgs).1,
      )
  unfolding deliver_all exactly_once
  deliver_all_fresh e = rw e

-- After any arrivals on a valid set whose queue is the last `capacity` of the ids `before`: the
-- delivered ids are each absent from the `capacity` ids delivered before them, the queue is again
-- the last `capacity` of all of them, and every id that arrived has been delivered.
pub record Delivered (s : BoundedIdSet) (before : List String)
    (msgs : List AuthenticatedPeerMessage) : Type 0 where
  pub valid : IsValid (deliver_all s msgs).0
  pub spaced : Spaced s.capacity before (ids (deliver_all s msgs).1)
  pub queue :
      (deliver_all s msgs).0.order ≡ recent s.capacity (before ++ ids (deliver_all s msgs).1)
  pub arrived :
      (id : String)
      → contains (ids msgs) id ≡ true
      → contains (before ++ ids (deliver_all s msgs).1) id ≡ true

pub deliver_all-Delivered :
    (s : BoundedIdSet) (before : List String) (msgs : List AuthenticatedPeerMessage)
    → IsValid s
    → s.order ≡ recent s.capacity before
    → Delivered s before msgs
deliver_all-Delivered s before [] v e = record {
  valid = rw deliver_all_nil v;
  spaced = rw deliver_all_nil tt;
  queue = rw (deliver_all_nil, append-nil) e;
  arrived = λ id h. cc;
}
deliver_all-Delivered s before (m ∷ msgs) v e =
    let step = insert-Inserted s m.message_id before v e in
    elim (Bool-cases (contains s.order m.message_id)) [
      | inl old ↦
          let same = deliver_all_known s m msgs (step.known old) in
          let r = deliver_all-Delivered s before msgs v e in
          record {
            valid = rw same r.valid;
            spaced = rw same r.spaced;
            queue = rw same r.queue;
            arrived = λ id h. rw same (
                ground (
                  arith,
                  r.arrived id,
                  contains-append before (ids (deliver_all s msgs).1) id,
                  contains-recent s.capacity before m.message_id,
                ));
          }
      | inr new ↦
          let more = deliver_all_fresh s m msgs (step.fresh new) in
          let r =
            deliver_all-Delivered (insert s m.message_id).0 (before ++ m.message_id ∷ []) msgs
              step.valid (rw step.cap (step.slid new)) in
          record {
            valid = rw more r.valid;
            spaced = rw more (ground (arith, r.spaced));
            queue = rw (more, shift) (ground (arith, r.queue, step.cap));
            arrived = λ id h.
                rw (more, shift)
                  (ground (
                    arith,
                    r.arrived id,
                    contains-append (before ++ m.message_id ∷ [])
                        (ids (deliver_all (insert s m.message_id).0 msgs).1) id,
                    contains-append before (m.message_id ∷ []) id,
                  ));
          }
    ]

-- The reference: the messages whose id has not occurred before, in order.
unfoldable pub first_seen :
    List String → List AuthenticatedPeerMessage → List AuthenticatedPeerMessage
first_seen seen [] = []
first_seen seen (m ∷ msgs) =
    if contains seen m.message_id
    then first_seen seen msgs
    else m ∷ first_seen (seen ++ m.message_id ∷ []) msgs

module _ (s : BoundedIdSet) (before : List String) (m : AuthenticatedPeerMessage)
    (msgs : List AuthenticatedPeerMessage) where
  first_seen_old :
      contains before m.message_id ≡ true → first_seen before (m ∷ msgs) ≡ first_seen before msgs
  unfolding first_seen
  first_seen_old h = rw h

  first_seen_new :
      contains before m.message_id ≡ false
      → first_seen before (m ∷ msgs) ≡ m ∷ first_seen (before ++ m.message_id ∷ []) msgs
  unfolding first_seen
  first_seen_new h = rw h

pub deliver_all-eq-first_seen_from :
    (s : BoundedIdSet) (before : List String) (msgs : List AuthenticatedPeerMessage)
    → IsValid s
    → s.order ≡ before
    → length before + length (first_seen before msgs) ≤ s.capacity
    → (deliver_all s msgs).1 ≡ first_seen before msgs
deliver_all-eq-first_seen_from s before [] v e h = rw deliver_all_nil (unfold first_seen in refl)
deliver_all-eq-first_seen_from s before (m ∷ msgs) v e h =
    let step =
      insert-Inserted s m.message_id before v
        (e ∙ sym (recent_short s.capacity before (omega arith))) in
    elim (Bool-cases (contains before m.message_id)) [
      | inl old ↦
          let skip = first_seen_old s before m msgs old in
          rw (deliver_all_known s m msgs (step.known (rw e old)), skip)
            (deliver_all-eq-first_seen_from s before msgs v e (rw skip at h))
      | inr new ↦
          let keep = first_seen_new s before m msgs new in
          let new' : contains s.order m.message_id ≡ false = rw e new in
          let fits = rw keep at h in
          rw (deliver_all_fresh s m msgs (step.fresh new'), keep)
            (ap (λ (l : List AuthenticatedPeerMessage). m ∷ l)
              (deliver_all-eq-first_seen_from (insert s m.message_id).0
                (before ++ m.message_id ∷ []) msgs step.valid
                (step.slid new'
                  ∙ recent_short s.capacity (before ++ m.message_id ∷ [])
                      (omega (arith, length-append before (m.message_id ∷ []))))
                (omega (arith, step.cap, length-append before (m.message_id ∷ [])))))
    ]
