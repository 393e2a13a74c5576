-- ===== src/Wire/Linked.antt =====
-- The sinks of a checked configuration link to finite publishers (cmd/rss2msg/wire.go).
use rss2msg.Prelude.{
  ℕ, suc, ◌+◌, ◌≡◌, refl, ◌∙◌, ap, sym, Str, Bool, true, false, Option, none, some, List, [], ◌∷◌,
  Memᴰ, All, All-mem, arith, is_empty, is_none, Option-cases, Bool-cases, inl, inr,
}
use rss2msg.Prelude.Int.{ℤ}
use rss2msg.Prelude.Map.{lookup}
use rss2msg.Retry.{Config}
use rss2msg.SinkGraph.{SinkConfig, is_composite, composite_children, or_no_children, check_sinks}
use rss2msg.SinkGraph.Cycle.{children_of, IsFinite, node}
use rss2msg.Sink.{Publisher, leaf, composite, no_branch, branch, RetryingPublisher}
use rss2msg.Wire.{find_sink, add_branch, as_composite, wrap_sink, link_branches, link}
use rss2msg.Wire.Checked.{
  mem-find_sink, find_sink-mem, lookup-composite_children, composite-IsChecked,
}

-- From some depth on, `f` gives a result.
abbrev Settles : {A : Type 0} → (ℕ → Option A) → Type 0
Settles {A} f = (fuel : ℕ) × ((k : ℕ) → (x : A) × (f (k + fuel) ≡ some x))

abbrev fans_out : Option SinkConfig → Bool
fans_out none = false
fans_out (some d) = is_composite d

-- No dead letter is a composite sink.
abbrev pub PlainDeadLetters : List SinkConfig → Type 0
PlainDeadLetters sinks = All (λ s. fans_out (find_sink s.dead_letter sinks) ≡ false) sinks

plain_at :
    (sinks : List SinkConfig)
    → PlainDeadLetters sinks
    → (n : Str) (s d : SinkConfig) → find_sink n sinks ≡ some s
    → find_sink s.dead_letter sinks ≡ some d
    → is_composite d ≡ false
plain_at sinks plain n s d found target =
    sym (ap fans_out target)
    ∙ All-mem (λ s. fans_out (find_sink s.dead_letter sinks) ≡ false) sinks plain
        (find_sink-mem n sinks s found).0

module _ (sinks : List SinkConfig) (retry : Config) (timeout : ℤ) where
  abbrev at : ℕ → Str → Option Publisher
  at = link sinks retry timeout

  link_leaf :
      (n : Str) (s : SinkConfig) (k : ℕ)
      → find_sink n sinks ≡ some s
      → is_composite s ≡ false
      → at (suc k) n ≡ some (leaf n)
  unfolding link
  link_leaf n s k found single = rw (found, single)

  wrap_plain :
      (n : Str) (s : SinkConfig) (k : ℕ)
      → PlainDeadLetters sinks
      → find_sink n sinks ≡ some s
      → is_composite s ≡ false
      → (r : RetryingPublisher) × (wrap_sink sinks retry timeout (at (suc k)) n ≡ some r)
  unfolding wrap_sink
  wrap_plain n s k plain found single =
      rw (found, link_leaf n s k found single, single)
        (elim (Bool-cases (is_empty s.dead_letter)) [
          | inl e ↦ rw e (_, refl)
          | inr e ↦ rw e (elim (Option-cases (find_sink s.dead_letter sinks)) [
            | inl q ↦ rw q (_, refl)
            | inr (d, q) ↦
                rw (q, link_leaf s.dead_letter d k q (plain_at sinks plain n s d found q)) (_, refl)
          ])
        ])

  wrap_composite :
      (n : Str) (s : SinkConfig) (get : Str → Option Publisher) (p : Publisher)
      → find_sink n sinks ≡ some s
      → is_composite s ≡ true
      → get n ≡ some p
      → (r : RetryingPublisher) × (wrap_sink sinks retry timeout get n ≡ some r)
  unfolding wrap_sink
  wrap_composite n s get p found fans h = rw (found, h, fans) (_, refl)

  branches-Settle :
      (cs : List Str)
      → ((c : Str) → Memᴰ c cs → Settles (λ k. wrap_sink sinks retry timeout (at k) c))
      → Settles (λ k. link_branches sinks retry timeout (at k) cs)
  unfolding link_branches
  branches-Settle [] h = (0, λ k. (no_branch, refl))
  branches-Settle (c ∷ cs) h =
      let (f, one) = h c (Memᴰ.head refl) in
      let (g, all) = branches-Settle cs (λ d m. h d (Memᴰ.tail m)) in
      (
        f + g,
        λ k.
            let (r, p) = one (k + g) in
            let (bs, q) = all (k + f) in
            let left : k + (f + g) ≡ (k + g) + f = omega arith in
            let right : k + (f + g) ≡ (k + f) + g = omega arith in
            (
              branch c r bs,
              ap (λ x. add_branch c x (link_branches sinks retry timeout (at (k + (f + g))) cs))
                    (ap (λ n. wrap_sink sinks retry timeout (at n) c) left ∙ p)
                  ∙ ap (add_branch c (some r))
                      (ap (λ n. link_branches sinks retry timeout (at n) cs) right ∙ q),
            ),
      )

module _ (sinks : List SinkConfig) (retry : Config) (timeout : ℤ)
    (checked : check_sinks sinks ≡ none) (plain : PlainDeadLetters sinks) where
  abbrev graph : List (Str × List Str)
  graph = composite_children sinks []

  lookup-graph :
      (n : Str) (s : SinkConfig)
      → find_sink n sinks ≡ some s
      → is_composite s ≡ true
      → lookup n graph ≡ some s.children
  lookup-graph n s found fans = rw (lookup-composite_children sinks checked n) (rw found (rw fans))

  -- A child that is a leaf, or a composite that settles, can be wrapped.
  child-Settles :
      (c : Str) (t : SinkConfig)
      → find_sink c sinks ≡ some t
      → (is_composite t ≡ true → Settles (λ k. link sinks retry timeout k c))
      → Settles (λ k. wrap_sink sinks retry timeout (link sinks retry timeout k) c)
  child-Settles c t found below = elim (Bool-cases (is_composite t)) [
    | inr e ↦ (
      1,
      λ k.
          let (r, p) = wrap_plain sinks retry timeout c t k plain found e in
          let one : k + 1 ≡ suc k = omega arith in
          (r, ap (λ n. wrap_sink sinks retry timeout (link sinks retry timeout n) c) one ∙ p),
    )
    | inl e ↦
        let (fuel, settled) = below e in
        (
          fuel,
          λ k.
              let (p, q) = settled k in
              wrap_composite sinks retry timeout c t (link sinks retry timeout (k + fuel)) p found e
                q,
        )
  ]

  composite-Settles :
      {n : Str}
      → IsFinite graph n
      → (s : SinkConfig) → find_sink n sinks ≡ some s
      → is_composite s ≡ true
      → Settles (λ k. link sinks retry timeout k n)
  unfolding link
  composite-Settles {n} (node f) s found fans =
      let same : children_of graph n ≡ s.children =
        ap or_no_children (lookup-graph n s found fans) in
      let known = (composite-IsChecked sinks checked n s found fans).declared in
      let (fuel, settled) = branches-Settle sinks retry timeout s.children (λ c m.
        let (t, q) = mem-find_sink c sinks (known c m) in
        child-Settles c t q
          (λ e. composite-Settles (f c (rw same m) (ap is_none (lookup-graph c t q e))) t q e)) in
      (
        suc fuel,
        λ k.
            let (bs, p) = settled k in
            let next : k + suc fuel ≡ suc (k + fuel) = omega arith in
            (
              composite n bs,
              ap (λ j. link sinks retry timeout j n) next
                  ∙ rw found (rw fans (ap (as_composite n) p)),
            ),
      )

  -- Every sink of a configuration that passes the checks links to a finite publisher, as long as no
  -- dead letter is a composite.
  pub link_checked :
      (n : Str) (s : SinkConfig)
      → find_sink n sinks ≡ some s
      → (fuel : ℕ) × (p : Publisher) × (link sinks retry timeout fuel n ≡ some p)
  link_checked n s found = elim (Bool-cases (is_composite s)) [
    | inr e ↦ (1, leaf n, link_leaf sinks retry timeout n s 0 found e)
    | inl e ↦
        let (fuel, settled) =
          composite-Settles (composite-IsChecked sinks checked n s found e).finite s found e in
        let (p, q) = settled 0 in (0 + fuel, p, q)
  ]
