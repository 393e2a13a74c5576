-- ===== src/Wire/Follow.antt =====
-- The publishers that the links of cmd/rss2msg/wire.go lead to, where they are cut at some depth. A
-- circle of links, which has no finite publisher, has one then.

use rss2msg.Prelude.{
  ℕ, zero, suc, ◌≡◌, refl, ap, Str, Option, none, some, List, [], ◌∷◌, Memᴰ, is_empty, Bool-cases,
  Option-cases, inl, inr,
}
use rss2msg.Prelude.Int.{ℤ}
use rss2msg.Retry.{Config}
use rss2msg.SinkGraph.{SinkConfig, is_composite, check_sinks}
use rss2msg.Sink.{Publisher, leaf, composite, Branches, no_branch, branch, RetryingPublisher}
use rss2msg.Wire.{find_sink, as_composite, wrap_sink, link_branches, build}
use rss2msg.Wire.Checked.{mem-find_sink, composite-IsChecked}

module _ (sinks : List SinkConfig) (retry : Config) (timeout : ℤ) where
  -- The links followed to a depth, and below it a sink with the name of what would be followed next.
  unfoldable pub follow : ℕ → Str → Option Publisher
  unfolding find_sink link_branches
  follow zero n = some (leaf n)
  follow (suc depth) n = build sinks retry timeout (follow depth) n (find_sink n sinks)

  -- Every declared name has a publisher.
  abbrev Total : (Str → Option Publisher) → Type 0
  Total get =
      (n : Str) (s : SinkConfig) → find_sink n sinks ≡ some s → (p : Publisher) × (get n ≡ some p)

  wrap-Total :
      (get : Str → Option Publisher)
      → Total get
      → (n : Str) (s : SinkConfig) → find_sink n sinks ≡ some s
      → (r : RetryingPublisher) × (wrap_sink sinks retry timeout get n ≡ some r)
  unfolding wrap_sink
  wrap-Total get total n s found =
      let (p, there) = total n s found in
      elim (Bool-cases (is_composite s)) [
        | inl e ↦ rw (found, there, e) (_, refl)
        | inr e ↦ elim (Bool-cases (is_empty s.dead_letter)) [
          | inl q ↦ rw (found, there, e, q) (_, refl)
          | inr q ↦ elim (Option-cases (find_sink s.dead_letter sinks)) [
            | inl t ↦ rw (found, there, e, q, t) (_, refl)
            | inr (d, t) ↦ rw (found, there, e, q, t) (rw (total s.dead_letter d t).1 (_, refl))
          ]
        ]
      ]

  branches-Total :
      (get : Str → Option Publisher)
      → Total get
      → (cs : List Str) → ((c : Str) → Memᴰ c cs → (s : SinkConfig) × (find_sink c sinks ≡ some s))
      → (bs : Branches) × (link_branches sinks retry timeout get cs ≡ some bs)
  unfolding link_branches
  branches-Total get total [] known = (no_branch, refl)
  branches-Total get total (c ∷ cs) known =
      let (s, found) = known c (Memᴰ.head refl) in
      let (r, e) = wrap-Total get total c s found in
      let (bs, q) = branches-Total get total cs (λ d m. known d (Memᴰ.tail m)) in
      (branch c r bs, rw (e, q) refl)

  pub follow-Total : check_sinks sinks ≡ none → (depth : ℕ) → Total (follow depth)
  unfolding follow
  follow-Total checked zero n s found = (leaf n, refl)
  follow-Total checked (suc depth) n s found = elim (Bool-cases (is_composite s)) [
    | inr e ↦ (leaf n, rw (found, e) refl)
    | inl e ↦
        let known = (composite-IsChecked sinks checked n s found e).declared in
        let (bs, q) =
          branches-Total (follow depth) (follow-Total checked depth) s.children
            (λ c m. mem-find_sink c sinks (known c m)) in
        (composite n bs, rw (found, e) (ap (as_composite n) q))
  ]
