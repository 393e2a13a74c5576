-- ===== src/Wire/Finite.antt =====
-- Which declared sinks link to a finite publisher (cmd/rss2msg/wire.go).
use rss2msg.Prelude.{
  ℕ, zero, suc, ◌≡◌, refl, ap, Str, true, false, Option, none, some, List, [], ◌∷◌, Memᴰ, is_empty,
  Option-cases, inl, inr,
}
use rss2msg.Prelude.Int.{ℤ}
use rss2msg.Retry.{Config}
use rss2msg.SinkGraph.{SinkConfig, is_composite}
use rss2msg.Sink.{Publisher, RetryingPublisher}
use rss2msg.Wire.{find_sink, add_branch, as_composite, wrap_sink, link_branches, link}

add_branch-none : (c : Str) (r : Option RetryingPublisher) → add_branch c r none ≡ none
add_branch-none c none = refl
add_branch-none c (some r) = refl

module _ (sinks : List SinkConfig) (retry : Config) (timeout : ℤ) where
  -- A composite one of whose children cannot be wrapped cannot be linked.
  link_branches-none :
      (get : Str → Option Publisher) (c : Str) (cs : List Str)
      → Memᴰ c cs
      → wrap_sink sinks retry timeout get c ≡ none
      → link_branches sinks retry timeout get cs ≡ none
  unfolding link_branches
  link_branches-none get c [] m h = elim m [ ]
  link_branches-none get c (d ∷ cs) (Memᴰ.head q) h = rw (← q) (rw h)
  link_branches-none get c (d ∷ cs) (Memᴰ.tail m) h =
      rw (link_branches-none get c cs m h) (add_branch-none d (wrap_sink sinks retry timeout get d))

  wrap_dead_letter :
      (get : Str → Option Publisher) (a : Str) (s d : SinkConfig)
      → find_sink a sinks ≡ some s
      → is_composite s ≡ false
      → is_empty s.dead_letter ≡ false
      → find_sink s.dead_letter sinks ≡ some d
      → get s.dead_letter ≡ none
      → wrap_sink sinks retry timeout get a ≡ none
  unfolding wrap_sink
  wrap_dead_letter get a s d found single named declared h = elim (Option-cases (get a)) [
    | inl e ↦ rw (found, e)
    | inr (p, e) ↦ rw (found, e) (rw (single, named, declared, h))
  ]

  -- A sink whose dead letter is a composite that the sink is a child of has no finite publisher, and
  -- neither has the composite: no depth is enough.
  pub link_dead_letter_loop :
      (a : Str) (s d : SinkConfig)
      → find_sink a sinks ≡ some s
      → is_composite s ≡ false
      → is_empty s.dead_letter ≡ false
      → find_sink s.dead_letter sinks ≡ some d
      → is_composite d ≡ true
      → Memᴰ a d.children
      → (fuel : ℕ)
      → (link sinks retry timeout fuel s.dead_letter ≡ none)
        × (wrap_sink sinks retry timeout (link sinks retry timeout fuel) a ≡ none)
  unfolding link
  link_dead_letter_loop a s d found single named declared fans child fuel = (
    target fuel,
    wrap_dead_letter (link sinks retry timeout fuel) a s d found single named declared
        (target fuel),
  )
    where
      target : (n : ℕ) → link sinks retry timeout n s.dead_letter ≡ none
      target zero = refl
      target (suc n) =
          let get = link sinks retry timeout n in
          rw declared (
            rw fans (
              ap (as_composite s.dead_letter) (
                link_branches-none get a d.children child
                  (wrap_dead_letter get a s d found single named declared (target n)))))
