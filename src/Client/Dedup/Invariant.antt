-- ===== src/Client/Dedup/Invariant.antt =====
-- The set and the queue of a `BoundedIdSet` hold the same ids, each once, and never too many.
use rust_messagebox_client.Prelude.{
  ℕ, suc, ◌≤◌, ◌<◌, String, ◌≡◌, refl, true, false, none, some, List, [], ◌∷◌, ◌++◌, arith, length,
  leb, length-append, contains, without, contains-append, NodupTexts, contains-without, Bool-cases,
  inl, inr, if◌then◌else◌,
}
use rust_messagebox_client.Client.Dedup.{
  BoundedIdSet, new, insert, make_room, pop_oldest, push, set_insert,
}

pub record IsValid (s : BoundedIdSet) : Type 0 where
  pub members : (a : String) → contains s.set a ≡ contains s.order a
  pub set_nodup : NodupTexts s.set
  pub order_nodup : NodupTexts s.order
  pub sizes : length s.set ≡ length s.order
  pub bounded : length s.order ≤ s.capacity
  pub room : 0 < s.capacity

without-NodupTexts : (b : String) (xs : List String) → NodupTexts xs → NodupTexts (without b xs)
without-NodupTexts b [] u = tt
without-NodupTexts b (x ∷ xs) (fresh, u) =
    ground (arith, without-NodupTexts b xs u, contains-without b xs x)

without_absent : (b : String) (xs : List String) → contains xs b ≡ false → without b xs ≡ xs
without_absent b [] h = refl
without_absent b (x ∷ xs) h = ground (arith, without_absent b xs)

length-without :
    (b : String) (xs : List String)
    → NodupTexts xs
    → contains xs b ≡ true
    → length xs ≡ suc (length (without b xs))
length-without b [] u h = ground arith
length-without b (x ∷ xs) (fresh, u) h = ground (arith, length-without b xs u, without_absent b xs)

append-NodupTexts :
    (xs : List String) (a : String)
    → NodupTexts xs
    → contains xs a ≡ false
    → NodupTexts (xs ++ a ∷ [])
append-NodupTexts [] a u h = (refl, tt)
append-NodupTexts (x ∷ xs) a (fresh, u) h =
    ground (arith, append-NodupTexts xs a u, contains-append xs (a ∷ []) x)

-- What `make_room` leaves is valid and has a free place.
abbrev HasRoom : BoundedIdSet → Type 0
HasRoom s = IsValid s × (length s.order < s.capacity)

pop_oldest-HasRoom :
    (s : BoundedIdSet) (order : List String)
    → s.order ≡ order
    → IsValid s
    → s.capacity ≤ length order
    → HasRoom (pop_oldest s order)
pop_oldest-HasRoom s [] e v full = absurd (omega (arith, v.room))
pop_oldest-HasRoom s (old ∷ rest) e v full = (
  record {
    members = λ a. ground (arith, contains-without old s.set a, v.members a);
    set_nodup = without-NodupTexts old s.set v.set_nodup;
    order_nodup = ground arith;
    sizes = ground (arith, length-without old s.set v.set_nodup, v.members old);
    bounded = ground arith;
    room = v.room;
  },
  ground arith,
)

make_room-HasRoom : (s : BoundedIdSet) → IsValid s → HasRoom (make_room s)
unfolding make_room
make_room-HasRoom s v = ground (arith, pop_oldest-HasRoom s s.order refl v)

-- A pop takes ids away and adds none.
pop_oldest-contains :
    (s : BoundedIdSet) (order : List String) (a : String)
    → contains s.set a ≡ false
    → contains (pop_oldest s order).set a ≡ false
pop_oldest-contains s [] a h = h
pop_oldest-contains s (old ∷ rest) a h = ground (arith, contains-without old s.set a)

make_room-contains :
    (s : BoundedIdSet) (a : String)
    → contains s.set a ≡ false
    → contains (make_room s).set a ≡ false
unfolding make_room
make_room-contains s a h = ground (arith, pop_oldest-contains s s.order a h)

push-IsValid :
    (s : BoundedIdSet) (id : String) → HasRoom s → contains s.set id ≡ false → IsValid (push s id)
unfolding push set_insert
push-IsValid s id (v, free) fresh = record {
  members = λ a. ground (arith, v.members a, contains-append s.order (id ∷ []) a);
  set_nodup = ground (arith, v.set_nodup);
  order_nodup = append-NodupTexts s.order id v.order_nodup (ground (arith, v.members id));
  sizes = ground (arith, v.sizes, length-append s.order (id ∷ []));
  bounded = ground (arith, length-append s.order (id ∷ []));
  room = v.room;
}

-- `insert` keeps the set and the queue in step, without copies and within the capacity. The
-- source's `debug_assert_eq!` on the two lengths is the field `sizes`.
pub insert-IsValid : (s : BoundedIdSet) (id : String) → IsValid s → IsValid (insert s id).0
unfolding insert
insert-IsValid s id v = elim (Bool-cases (contains s.set id)) [
  | inl old ↦ rw old v
  | inr fresh ↦ rw fresh (push-IsValid _ id (make_room-HasRoom s v) (make_room-contains s id fresh))
]

abbrev pub empty : ℕ → BoundedIdSet
empty capacity = record { set = []; order = []; capacity = capacity }

pub empty-IsValid : (capacity : ℕ) → 0 < capacity → IsValid (empty capacity)
empty-IsValid capacity h = record {
  members = λ a. refl;
  set_nodup = tt;
  order_nodup = tt;
  sizes = refl;
  bounded = omega arith;
  room = h;
}

-- `new` panics at capacity 0 and gives the empty set otherwise.
pub new_lem :
    (capacity : ℕ) → new capacity ≡ (if leb capacity 0 then none else some (empty capacity))
unfolding new
new_lem capacity = refl
