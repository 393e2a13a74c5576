-- ===== src/Source/Merge.antt =====
-- Merging in internal/feedsource: one feed for each URL, and the earliest source decides which.
use rss2msg.Prelude.{
  ◌≡◌, refl, sym, ◌∙◌, Str, true, false, Option, none, some, List, [], ◌∷◌, ◌++◌, All, All-append,
  arith, str_eq, str_eq_iff, if◌then◌else◌, Bool-cases, inl, inr,
}
use rss2msg.Errors.{ok, err}
use rss2msg.Source.{
  FeedConfig, Answer, LastGood, is_dup, add_feeds, contribution, desired_loop, desired,
  snapshot_loop, snapshot,
}

-- The first feed of a list with the given URL.
unfoldable pub find : Str → List FeedConfig → Option FeedConfig
find u [] = none
find u (fc ∷ fcs) = if str_eq fc.url u then some fc else find u fcs

-- No two feeds of the list have one URL.
abbrev pub DistinctUrls : List FeedConfig → Type 0
DistinctUrls [] = Unit {0}
DistinctUrls (fc ∷ fcs) = All (λ g. str_eq fc.url g.url ≡ false) fcs × DistinctUrls fcs

find-append_found :
    (u : Str) (xs ys : List FeedConfig) → is_dup u xs ≡ true → find u (xs ++ ys) ≡ find u xs
unfolding find is_dup
find-append_found u [] ys h = absurd (cc)
find-append_found u (x ∷ xs) ys h = ground (arith, find-append_found u xs ys)

find-append_cong :
    (u : Str) (xs ys zs : List FeedConfig)
    → find u ys ≡ find u zs
    → find u (xs ++ ys) ≡ find u (xs ++ zs)
unfolding find
find-append_cong u [] ys zs h = h
find-append_cong u (x ∷ xs) ys zs h = ground (arith, find-append_cong u xs ys zs h)

abbrev or_find : Option FeedConfig → Option FeedConfig → Option FeedConfig
or_find none b = b
or_find (some a) b = some a

find-append :
    (u : Str) (xs ys : List FeedConfig) → find u (xs ++ ys) ≡ or_find (find u xs) (find u ys)
unfolding find
find-append u [] ys = refl
find-append u (x ∷ xs) ys = ground (arith, find-append u xs ys)

find_dup :
    (u : Str) (xs : List FeedConfig)
    → is_dup u xs ≡ true
    → (fc : FeedConfig) × (find u xs ≡ some fc)
unfolding find is_dup
find_dup u [] h = absurd (cc)
find_dup u (x ∷ xs) h = elim (Bool-cases (str_eq x.url u)) [
  | inl e ↦ (x, rw e)
  | inr e ↦ rw e (find_dup u xs (ground arith))
]

find_dup_of :
    (u : Str) (fc : FeedConfig) (xs : List FeedConfig) (ys : List FeedConfig)
    → is_dup fc.url xs ≡ true
    → or_find (find u xs) (find u (fc ∷ ys)) ≡ or_find (find u xs) (find u ys)
find_dup_of u fc xs ys h = elim (Bool-cases (str_eq fc.url u)) [
  | inl e ↦ let (d, q) = find_dup u xs (rw (← (str_eq_iff fc.url u).0 e) h) in rw q
  | inr e ↦ unfold find in rw e
]

-- Adding feeds keeps what is there and appends the new URLs: looking one up gives the first of all.
find-add_feeds :
    (u : Str) (merged fcs : List FeedConfig)
    → find u (add_feeds merged fcs) ≡ or_find (find u merged) (find u fcs)
unfolding add_feeds
find-add_feeds u merged [] = unfold find in or_find-none (find u merged)
  where
    or_find-none : (o : Option FeedConfig) → o ≡ or_find o none
    or_find-none none = refl
    or_find-none (some a) = refl
find-add_feeds u merged (fc ∷ fcs) = elim (Bool-cases (is_dup fc.url merged)) [
  | inl e ↦ rw e (find-add_feeds u merged fcs ∙ sym (find_dup_of u fc merged fcs e))
  | inr e ↦ rw e (
      find-add_feeds u (merged ++ fc ∷ []) fcs
      ∙ rw (find-append u merged (fc ∷ []))
          (unfold find in or_find_assoc (find u merged) (find u fcs)))
]
  where
    or_find_assoc :
        (a c : Option FeedConfig)
        → or_find (or_find a (if str_eq fc.url u then some fc else none)) c
          ≡ or_find a (if str_eq fc.url u then some fc else c)
    or_find_assoc a c = ground arith

-- All that the sources contribute, in source order and with duplicates.
unfoldable pub contributions : List Answer → LastGood → List FeedConfig
contributions [] good = []
contributions ((name, r) ∷ rs) good =
    let (fs, good') = contribution name r good in fs ++ contributions rs good'

or_find_assoc3 : (a b c : Option FeedConfig) → or_find (or_find a b) c ≡ or_find a (or_find b c)
or_find_assoc3 none b c = refl
or_find_assoc3 (some a) b c = refl

find-desired_loop :
    (u : Str) (merged : List FeedConfig) (answers : List Answer) (good : LastGood)
    → find u (desired_loop merged answers good).0
      ≡ or_find (find u merged) (find u (contributions answers good))
unfolding desired_loop contributions
find-desired_loop u merged [] good = find-add_feeds u merged []
find-desired_loop u merged ((name, r) ∷ rs) good =
    let (fs, good') = contribution name r good in
    find-desired_loop u (add_feeds merged fs) rs good'
    ∙ rw (find-add_feeds u merged fs, find-append u fs (contributions rs good'))
        (or_find_assoc3 (find u merged) (find u fs) (find u (contributions rs good')))

absent-append :
    (g : FeedConfig) (xs : List FeedConfig)
    → is_dup g.url xs ≡ false
    → All (λ f. str_eq f.url g.url ≡ false) xs
unfolding is_dup
absent-append g [] h = tt
absent-append g (x ∷ xs) h = (ground arith, absent-append g xs (ground arith))

DistinctUrls-snoc :
    (xs : List FeedConfig) (g : FeedConfig)
    → DistinctUrls xs
    → All (λ f. str_eq f.url g.url ≡ false) xs
    → DistinctUrls (xs ++ g ∷ [])
DistinctUrls-snoc [] g h k = (tt, tt)
DistinctUrls-snoc (x ∷ xs) g h k = (
  All-append (λ f. str_eq x.url f.url ≡ false) xs (g ∷ []) h.0 (k.0, tt),
  DistinctUrls-snoc xs g h.1 k.1,
)

add_feeds-DistinctUrls :
    (merged fcs : List FeedConfig) → DistinctUrls merged → DistinctUrls (add_feeds merged fcs)
unfolding add_feeds
add_feeds-DistinctUrls merged [] h = h
add_feeds-DistinctUrls merged (fc ∷ fcs) h = elim (Bool-cases (is_dup fc.url merged)) [
  | inl e ↦ rw e (add_feeds-DistinctUrls merged fcs h)
  | inr e ↦ rw e (
      add_feeds-DistinctUrls (merged ++ fc ∷ []) fcs
        (DistinctUrls-snoc merged fc h (absent-append fc merged e)))
]

desired_loop-DistinctUrls :
    (merged : List FeedConfig) (answers : List Answer) (good : LastGood)
    → DistinctUrls merged
    → DistinctUrls (desired_loop merged answers good).0
unfolding desired_loop
desired_loop-DistinctUrls merged [] good h = h
desired_loop-DistinctUrls merged ((name, r) ∷ rs) good h =
    let (fs, good') = contribution name r good in
    desired_loop-DistinctUrls (add_feeds merged fs) rs good' (add_feeds-DistinctUrls merged fs h)

-- The merged list has each URL once, and under a URL the feed that the first source to have that URL
-- contributes; a URL that no source contributes is not in it.
pub desired_first_wins :
    (answers : List Answer) (good : LastGood) (u : Str)
    → DistinctUrls (desired answers good).0
      × (find u (desired answers good).0 ≡ find u (contributions answers good))
unfolding desired
desired_first_wins answers good u = (
  desired_loop-DistinctUrls [] answers good tt,
  find-desired_loop u [] answers good ∙ (unfold find in refl),
)

snapshot_loop-desired :
    (merged : List FeedConfig) (answers : List Answer) (good : LastGood) (fs : List FeedConfig)
    → snapshot_loop merged answers ≡ ok fs
    → (desired_loop merged answers good).0 ≡ fs
unfolding snapshot_loop desired_loop
snapshot_loop-desired merged [] good fs h = cc
snapshot_loop-desired merged ((name, err e) ∷ rs) good fs h = absurd (cc)
snapshot_loop-desired merged ((name, ok gs) ∷ rs) good fs h =
    snapshot_loop-desired (add_feeds merged gs) rs _ fs h

-- Where a snapshot succeeds it is the list that the daemon's aggregator would make of the same
-- answers, whatever the aggregator remembers.
snapshot-eq-desired :
    (answers : List Answer) (good : LastGood) (fs : List FeedConfig)
    → snapshot answers ≡ ok fs
    → (desired answers good).0 ≡ fs
unfolding snapshot desired
snapshot-eq-desired answers good fs h = snapshot_loop-desired [] answers good fs h
