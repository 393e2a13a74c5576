-- ===== src/Feed/Order.antt =====
-- The order of the items that internal/feed/detector.go works through.
use mathlib.Core.List.{Perm}
use mathlib.Core.List.Perm
use rss2msg.Prelude.{
  ℕ, ◌≤◌, ◌≡◌, refl, List, [], ◌∷◌, All, arith, ltb, ◌==◌, if◌then◌else◌, Bool-cases, inl, inr,
}
use rss2msg.World.{FeedItem}
use rss2msg.Feed.{published_time, insert_item, sort_items}

-- Each item was published no later than any behind it.
abbrev Ascending : List FeedItem → Type 0
Ascending [] = Unit {0}
Ascending (x ∷ xs) = All (λ y. published_time x ≤ published_time y) xs × Ascending xs

insert_item-perm : (it : FeedItem) (xs : List FeedItem) → Perm (insert_item it xs) (it ∷ xs)
unfolding insert_item
insert_item-perm it [] = Perm.refl _
insert_item-perm it (x ∷ xs) = elim (Bool-cases (ltb (published_time x) (published_time it))) [
  | inl e ↦ rw e (Perm.trans (Perm.cons x (insert_item-perm it xs)) (Perm.swap it x xs))
  | inr e ↦ rw e (Perm.refl _)
]

sort_items-perm : (xs : List FeedItem) → Perm (sort_items xs) xs
unfolding sort_items
sort_items-perm [] = Perm.refl []
sort_items-perm (x ∷ xs) =
    Perm.trans (insert_item-perm x (sort_items xs)) (Perm.cons x (sort_items-perm xs))

below :
    (it x : FeedItem) (xs : List FeedItem)
    → published_time it ≤ published_time x
    → All (λ y. published_time x ≤ published_time y) xs
    → All (λ y. published_time it ≤ published_time y) xs
below it x [] h k = tt
below it x (y ∷ xs) h k = (omega arith, below it x xs h k.1)

insert_item-All :
    (z it : FeedItem) (xs : List FeedItem)
    → published_time z ≤ published_time it
    → All (λ y. published_time z ≤ published_time y) xs
    → All (λ y. published_time z ≤ published_time y) (insert_item it xs)
unfolding insert_item
insert_item-All z it [] h k = (h, tt)
insert_item-All z it (x ∷ xs) h k = elim (Bool-cases (ltb (published_time x) (published_time it))) [
  | inl e ↦ rw e (k.0, insert_item-All z it xs h k.1)
  | inr e ↦ rw e (h, k)
]

insert_item-Ascending :
    (it : FeedItem) (xs : List FeedItem) → Ascending xs → Ascending (insert_item it xs)
unfolding insert_item
insert_item-Ascending it [] h = (tt, tt)
insert_item-Ascending it (x ∷ xs) h =
    elim (Bool-cases (ltb (published_time x) (published_time it))) [
      | inl e ↦ rw e (insert_item-All x it xs (ground arith) h.0, insert_item-Ascending it xs h.1)
      | inr e ↦ rw e ((ground arith, below it x xs (ground arith) h.0), h)
    ]

sort_items-Ascending : (xs : List FeedItem) → Ascending (sort_items xs)
unfolding sort_items
sort_items-Ascending [] = tt
sort_items-Ascending (x ∷ xs) = insert_item-Ascending x (sort_items xs) (sort_items-Ascending xs)

-- The items of one instant, in the order of the list.
at_instant : ℕ → List FeedItem → List FeedItem
at_instant t [] = []
at_instant t (x ∷ xs) =
    let rest = at_instant t xs in if published_time x == t then x ∷ rest else rest

insert_item-at_instant :
    (t : ℕ) (it : FeedItem) (xs : List FeedItem)
    → at_instant t (insert_item it xs) ≡ at_instant t (it ∷ xs)
unfolding insert_item at_instant
insert_item-at_instant t it [] = refl
insert_item-at_instant t it (x ∷ xs) = ground (arith, insert_item-at_instant t it xs)

sort_items-stable : (t : ℕ) (xs : List FeedItem) → at_instant t (sort_items xs) ≡ at_instant t xs
unfolding sort_items at_instant
sort_items-stable t [] = refl
sort_items-stable t (x ∷ xs) =
    ground (arith, insert_item-at_instant t x (sort_items xs), sort_items-stable t xs)

-- The order in which a feed's items are worked through is a permutation of its items, oldest first,
-- and items published at one instant, and items with no date, keep their order in the feed.
sort_items_lem :
    (t : ℕ) (xs : List FeedItem)
    → Perm (sort_items xs) xs
      × Ascending (sort_items xs)
      × (at_instant t (sort_items xs) ≡ at_instant t xs)
sort_items_lem t xs = (sort_items-perm xs, sort_items-Ascending xs, sort_items-stable t xs)
