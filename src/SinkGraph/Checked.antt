-- ===== src/SinkGraph/Checked.antt =====
-- What the check of internal/config/validate.go on the graph of composite sinks decides.
use rss2msg.Prelude.{
  ℕ, zero, suc, ◌≡◌, ◌≢◌, refl, ◌∙◌, ap, sym, ◌↔◌, Str, lit, true, false, List, [], ◌∷◌, ◌++◌, Memᴰ,
  arith, length, is_none, str_eq, str_eq_iff, Bool-cases, inl, inr, ◌⊎◌,
}
use rss2msg.Prelude.Map.{lookup}
use rss2msg.SinkGraph.{
  mem_str, Found, clear, exhausted, cycle, go_on, walk, dfs, join_path, cycle_text, composite_cycle,
}
use rss2msg.SinkGraph.Cycle.{children_of, IsFinite, node, dfs-IsFinite, dfs-fuel, off_path-le}

module _ (m : List (Str × List Str)) where
  -- `c` is a composite child of `n`.
  abbrev Edge : Str → Str → Type 0
  Edge n c = Memᴰ c (children_of m n) × (is_none (lookup c m) ≡ false)

  data Reaches : Str → Str → Type 0 where
    stop : {a : Str} → Reaches a a
    via : {a b c : Str} → Edge a b → Reaches b c → Reaches a c

  Reaches-snoc : {a b c : Str} → Reaches a b → Edge b c → Reaches a c
  Reaches-snoc stop e = via e stop
  Reaches-snoc (via f r) e = via f (Reaches-snoc r e)

  -- No composite of a finite tree reaches itself.
  no_loop : {n : Str} → IsFinite m n → (c : Str) → Edge n c → Reaches c n → ⊥
  no_loop (node f) c e stop = no_loop (f c e.0 e.1) c e stop
  no_loop (node f) c e (via {b = d} g r) = no_loop (f c e.0 e.1) d g (Reaches-snoc r e)

  child-IsFinite : {n : Str} → IsFinite m n → (c : Str) → Edge n c → IsFinite m c
  child-IsFinite (node f) c e = f c e.0 e.1

  go_on-cycle : (a b : Found) (p : List Str) → go_on a b ≡ cycle p → (a ≡ cycle p) ⊎ (b ≡ cycle p)
  go_on-cycle clear b p h = inr h
  go_on-cycle exhausted b p h = absurd (cc)
  go_on-cycle (cycle q) b p h = inl h

  -- Where a walk finds a cycle: at a child that is on the path, or below a child.
  record AtChild (go : Str → Found) (path cs p : List Str) : Type 0 where
    child : Str
    listed : Memᴰ child cs
    composite : is_none (lookup child m) ≡ false
    found : ((mem_str child path ≡ true) × (p ≡ child ∷ path)) ⊎ (go child ≡ cycle p)

  walk-AtChild :
      (go : Str → Found) (path cs p : List Str) → walk m go path cs ≡ cycle p → AtChild go path cs p
  unfolding walk
  walk-AtChild go path [] p h = absurd (cc)
  walk-AtChild go path (c ∷ cs) p h = elim (Bool-cases (is_none (lookup c m))) [
    | inl e ↦ later (walk-AtChild go path cs p (rw e at h))
    | inr e ↦ elim (Bool-cases (mem_str c path)) [
      | inl q ↦ record {
        child = c;
        listed = Memᴰ.head refl;
        composite = e;
        found = inl (q, same (rw (e, q) at h));
      }
      | inr q ↦ elim (go_on-cycle _ _ p (rw (e, q) at h)) [
        | inl k ↦ record { child = c; listed = Memᴰ.head refl; composite = e; found = inr k }
        | inr k ↦ later (walk-AtChild go path cs p k)
      ]
    ]
  ]
    where
      later : AtChild go path cs p → AtChild go path (c ∷ cs) p
      later a = record {
        child = a.child;
        listed = Memᴰ.tail a.listed;
        composite = a.composite;
        found = a.found;
      }

      same : cycle (c ∷ path) ≡ cycle p → p ≡ c ∷ path
      same e = cc

  -- The path that is reported has two names at least.
  dfs-two :
      (fuel : ℕ) (n : Str) (path p : List Str)
      → dfs m fuel n path ≡ cycle p
      → (c d : Str) × (ps : List Str) × (p ≡ c ∷ d ∷ ps)
  unfolding dfs
  dfs-two zero n path p h = absurd (cc)
  dfs-two (suc fuel) n path p h =
      let a = walk-AtChild (λ c. dfs m fuel c (n ∷ path)) (n ∷ path) (children_of m n) p h in
      elim a.found [
        | inl (q, e) ↦ (a.child, n, path, e)
        | inr k ↦ dfs-two fuel a.child (n ∷ path) p k
      ]

  dfs-cycle :
      (fuel : ℕ) (n : Str) (path p : List Str)
      → ((x : Str) → mem_str x (n ∷ path) ≡ true → Reaches x n)
      → dfs m fuel n path ≡ cycle p
      → ¬ (IsFinite m n)
  unfolding dfs
  dfs-cycle zero n path p up h = absurd (cc)
  dfs-cycle (suc fuel) n path p up h =
      let a = walk-AtChild (λ c. dfs m fuel c (n ∷ path)) (n ∷ path) (children_of m n) p h in
      let e : Edge n a.child = (a.listed, a.composite) in
      elim a.found [
        | inl (q, s) ↦ λ t. no_loop t a.child e (up a.child q)
        | inr k ↦ λ t.
            dfs-cycle fuel a.child (n ∷ path) p (under a.child e) k (child-IsFinite t a.child e)
      ]
    where
      under : (c : Str) → Edge n c → (x : Str) → mem_str x (c ∷ n ∷ path) ≡ true → Reaches x c
      under c e x h = elim (Bool-cases (str_eq c x)) [
        | inl q ↦ rw ((str_eq_iff c x).0 q) stop
        | inr q ↦ Reaches-snoc (up x (tail_mem q h)) e
      ]
        where
          tail_mem :
              str_eq c x ≡ false → mem_str x (c ∷ n ∷ path) ≡ true → mem_str x (n ∷ path) ≡ true
          tail_mem q h = unfold mem_str in ground arith

  join_path-ne : (c d : Str) (ps : List Str) → join_path (c ∷ d ∷ ps) ≢ []
  unfolding join_path
  join_path-ne c d ps h = ends (join_path (d ∷ ps)) h
    where
      ends : (s : Str) → s ++ (lit " -> " ++ c) ≢ []
      ends [] h = absurd (cc)
      ends (x ∷ s) h = absurd (cc)

  Found-cases : (f : Found) → (f ≡ clear) ⊎ (f ≡ exhausted) ⊎ (p : List Str) × (f ≡ cycle p)
  Found-cases clear = inl refl
  Found-cases exhausted = inr (inl refl)
  Found-cases (cycle p) = inr (inr (p, refl))

  -- The search from a composite does not run out of fuel, and it reports no cycle exactly where the
  -- composite children below form a finite tree.
  pub composite_cycle_iff :
      (start : Str)
      → is_none (lookup start m) ≡ false
      → (dfs m (suc (length m)) start [] ≢ exhausted)
        × ((composite_cycle start m ≡ []) ↔ IsFinite m start)
  unfolding composite_cycle mem_str
  composite_cycle_iff start s = (enough, (to, from))
    where
      found : Found
      found = dfs m (suc (length m)) start []

      enough : found ≢ exhausted
      enough =
          dfs-fuel m (suc (length m)) start [] s (unfold mem_str in refl)
            (omega (arith, off_path-le m [] m))

      to : cycle_text found ≡ [] → IsFinite m start
      to h = elim (Found-cases found) [
        | inl e ↦ dfs-IsFinite m (suc (length m)) start [] e
        | inr (inl e) ↦ absurd (enough e)
        | inr (inr (p, e)) ↦
            let (c, d, ps, q) = dfs-two (suc (length m)) start [] p e in
            absurd (join_path-ne c d ps (sym (ap cycle_text e ∙ ap join_path q) ∙ h))
      ]

      alone : (x : Str) → mem_str x (start ∷ []) ≡ true → Reaches x start
      alone x h = rw ((str_eq_iff start x).0 (unfold mem_str in ground arith)) stop

      from : IsFinite m start → cycle_text found ≡ []
      from t = elim (Found-cases found) [
        | inl e ↦ ap cycle_text e
        | inr (inl e) ↦ absurd (enough e)
        | inr (inr (p, e)) ↦ absurd (dfs-cycle (suc (length m)) start [] p alone e t)
      ]
