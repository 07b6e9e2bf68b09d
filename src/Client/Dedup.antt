-- ===== src/Client/Dedup.antt =====
-- `BoundedIdSet` and `exactly_once` of src/client.rs: the bounded set of message ids that keeps a
-- subscriber's callback from seeing one message twice.
pub mod Delivery
pub mod Invariant
pub mod Window
use rust_messagebox_client.Prelude.{
  ℕ, String, Bool, true, false, Option, none, some, List, [], ◌∷◌, ◌++◌, length, leb, contains,
  without, map, if◌then◌else◌,
}
use rust_messagebox_client.Types.{AuthenticatedPeerMessage}

-- `set` is a `HashSet` and `order` a `VecDeque`, its front first.
pub record BoundedIdSet : Type 0 where
  pub set : List String
  pub order : List String
  pub capacity : ℕ

-- `assert!(capacity > 0, …)`: a panic is `none`.
unfoldable pub new : ℕ → Option BoundedIdSet
new capacity =
    if leb capacity 0 then none else some (record { set = []; order = []; capacity = capacity })

-- `HashSet::insert`
unfoldable pub set_insert : String → List String → List String
set_insert id set = if contains set id then set else id ∷ set

-- `if let Some(old) = self.order.pop_front() { self.set.remove(&old); }`
abbrev pub pop_oldest : BoundedIdSet → List String → BoundedIdSet
pop_oldest s [] = s
pop_oldest s (old ∷ rest) = record s { set = without old s.set; order = rest }

unfoldable pub make_room : BoundedIdSet → BoundedIdSet
make_room s = if leb s.capacity (length s.order) then pop_oldest s s.order else s

-- `self.set.insert(id.clone()); self.order.push_back(id);`
unfoldable pub push : BoundedIdSet → String → BoundedIdSet
push s id = record s { set = set_insert id s.set; order = s.order ++ id ∷ [] }

-- The new set, and whether the id was not in it.
unfoldable pub insert : BoundedIdSet → String → BoundedIdSet × Bool
insert s id = if contains s.set id then (s, false) else (push (make_room s) id, true)

-- One call of the wrapped callback: the set that it leaves, and the messages that reach `inner`.
unfoldable pub exactly_once :
    BoundedIdSet → AuthenticatedPeerMessage → BoundedIdSet × List AuthenticatedPeerMessage
exactly_once seen msg =
    let (seen', fresh) = insert seen msg.message_id in (seen', if fresh then msg ∷ [] else [])

-- The calls of one wrapper in the order in which they take its lock, whichever path makes them.
unfoldable pub deliver_all :
    BoundedIdSet → List AuthenticatedPeerMessage → BoundedIdSet × List AuthenticatedPeerMessage
deliver_all seen [] = (seen, [])
deliver_all seen (msg ∷ rest) =
    let (seen', now) = exactly_once seen msg in
    let (seen'', later) = deliver_all seen' rest in (seen'', now ++ later)

-- `BoundedIdSet::new(10_000)` of `exactly_once`.
abbrev pub dedup_capacity : ℕ
dedup_capacity = 10000

abbrev pub ids : List AuthenticatedPeerMessage → List String
ids = map (λ (m : AuthenticatedPeerMessage). m.message_id)
