-- ===== src/HttpOps/Inbox/Orderless.antt =====
-- What the order of the hosts, that of a `HashSet` in src/http_ops.rs, does not change.
use mathlib.Core.List.{Permᴰ, map-append}
use rust_messagebox_client.Prelude.{
  String, ◌≡◌, refl, ◌∙◌, ◌||◌, List, [], ◌∷◌, map, contains, count, NodupTexts, contains-append,
  arith, string_dec, Bool, if◌then◌else◌,
}
use rust_messagebox_client.Types.{PaymentAwarePeerMessage}
use rust_messagebox_client.HttpOps.Listing.{unseen}
use rust_messagebox_client.HttpOps.Listing.Firsts.{message_id_of, unseen-contains, unseen-IsFirsts}
use rust_messagebox_client.HttpOps.Inbox.{flatten}

-- In a list without repetitions a text stands once or not at all.
count-Nodup :
    (xs : List String) (a : String) → NodupTexts xs → count a xs ≡ (if contains xs a then 1 else 0)
unfolding string_dec
count-Nodup [] a h = refl
count-Nodup (x ∷ xs) a (fresh, h) = ground (arith, count-Nodup xs a h)

abbrev listed : List (List PaymentAwarePeerMessage) → List String
listed rss = map message_id_of (flatten rss)

listed-contains :
    (rs : List PaymentAwarePeerMessage) (rss : List (List PaymentAwarePeerMessage)) (id : String)
    → contains (listed (rs ∷ rss)) id
      ≡ (contains (map message_id_of rs) id || contains (listed rss) id)
unfolding flatten
listed-contains rs rss id =
    rw (map-append message_id_of rs (flatten rss))
      (contains-append (map message_id_of rs) (listed rss) id)

or_swap : (a b c : Bool) → (a || (b || c)) ≡ (b || (a || c))
or_swap a b c = ground arith

listed-perm :
    (rss rss' : List (List PaymentAwarePeerMessage)) (id : String)
    → Permᴰ rss rss'
    → contains (listed rss) id ≡ contains (listed rss') id
listed-perm rss rss' id Permᴰ.nil = refl
listed-perm rss rss' id (Permᴰ.cons {a} {b} {l₁} {l₂} e p) =
    rw (listed-contains a l₁ id, listed-contains b l₂ id, e, listed-perm l₁ l₂ id p) refl
listed-perm rss rss' id (Permᴰ.swap {a} {b} {a'} {b'} {l} e e') =
    rw
      (
        listed-contains a (b ∷ l) id,
        listed-contains b l id,
        listed-contains a' (b' ∷ l) id,
        listed-contains b' l id,
        e,
        e',
      )
      (or_swap (contains (map message_id_of b') id) (contains (map message_id_of a') id) _)
listed-perm rss rss' id (Permᴰ.trans {l₁} {l₂} {l₃} p q) =
    listed-perm l₁ l₂ id p ∙ listed-perm l₂ l₃ id q

-- Whatever the order of the hosts, the same message ids are listed, each as often.
pub unseen-count-perm :
    (rss rss' : List (List PaymentAwarePeerMessage)) (id : String)
    → Permᴰ rss rss'
    → count id (map message_id_of (unseen [] (flatten rss)))
      ≡ count id (map message_id_of (unseen [] (flatten rss')))
unseen-count-perm rss rss' id p =
    rw
      (
        count-Nodup (map message_id_of (unseen [] (flatten rss))) id
            (unseen-IsFirsts (flatten rss)).0,
        count-Nodup (map message_id_of (unseen [] (flatten rss'))) id
            (unseen-IsFirsts (flatten rss')).0,
        unseen-contains [] (flatten rss) id,
        unseen-contains [] (flatten rss') id,
        listed-perm rss rss' id p,
      )
      refl
