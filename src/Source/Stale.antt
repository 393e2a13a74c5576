-- ===== src/Source/Stale.antt =====
-- The last-known-good memory of the aggregator in internal/feedsource/aggregator.go.
use rss2msg.Prelude.{◌≡◌, refl, ◌∙◌, ap, Str, false, List, [], ◌∷◌, All, str_eq, str_eq_refl}
use rss2msg.Prelude.Map.{lookup, insert, lookup-insert}
use rss2msg.Errors.{Err, Result, ok, err}
use rss2msg.Source.{
  FeedConfig, Answer, LastGood, or_nil, add_feeds, contribution, desired_loop, desired,
}

-- The same sources, all of them failing.
abbrev failing : Err → List Answer → List Answer
failing e [] = []
failing e ((name, r) ∷ rs) = (name, err e) ∷ failing e rs

-- The sources have different names.
abbrev pub DistinctNames : List Answer → Type 0
DistinctNames [] = Unit {0}
DistinctNames ((name, r) ∷ rs) = All (λ a. str_eq a.0 name ≡ false) rs × DistinctNames rs

-- What is remembered of a source is not changed by the others.
lookup-desired_loop :
    (name : Str) (merged : List FeedConfig) (rs : List Answer) (good : LastGood)
    → All (λ a. str_eq a.0 name ≡ false) rs
    → lookup name (desired_loop merged rs good).1 ≡ lookup name good
unfolding desired_loop
lookup-desired_loop name merged [] good h = refl
lookup-desired_loop name merged ((n, err e) ∷ rs) good h =
    lookup-desired_loop name (add_feeds merged (or_nil (lookup n good))) rs good h.1
lookup-desired_loop name merged ((n, ok fs) ∷ rs) good h =
    lookup-desired_loop name (add_feeds merged fs) rs (insert n fs good) h.1
    ∙ rw (lookup-insert n name fs good, h.0)

remembered :
    (name : Str) (r : Result (List FeedConfig)) (good : LastGood)
    → or_nil (lookup name (contribution name r good).1) ≡ (contribution name r good).0
unfolding contribution
remembered name (err e) good = refl
remembered name (ok fs) good = rw (lookup-insert name name fs good, str_eq_refl name)

stale_loop :
    (e : Err) (merged : List FeedConfig) (rs : List Answer) (good later : LastGood)
    → DistinctNames rs
    → ((name : Str) → lookup name later ≡ lookup name (desired_loop merged rs good).1)
    → (desired_loop merged (failing e rs) later).0 ≡ (desired_loop merged rs good).0
unfolding desired_loop
stale_loop e merged [] good later d h = refl
stale_loop e merged ((name, r) ∷ rs) good later d h =
    let (fs, good') = contribution name r good in
    let m = add_feeds merged fs in
    let same : or_nil (lookup name later) ≡ fs =
      ap or_nil (h name ∙ lookup-desired_loop name m rs good' d.0) ∙ remembered name r good in
    ap (λ gs. (desired_loop (add_feeds merged gs) (failing e rs) later).0) same
    ∙ stale_loop e m rs good' later d.1 h

-- A reload in which every source fails gives the list of the reload before it, so an outage of the
-- sources stops and starts no feed. The sources have different names.
desired_stale :
    (e : Err) (answers : List Answer) (good : LastGood)
    → DistinctNames answers
    → (desired (failing e answers) (desired answers good).1).0 ≡ (desired answers good).0
unfolding desired
desired_stale e answers good d =
    stale_loop e [] answers good (desired_loop [] answers good).1 d (λ name. refl)
