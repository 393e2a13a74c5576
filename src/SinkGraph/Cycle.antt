-- ===== src/SinkGraph/Cycle.antt =====
-- The search for a cycle among composite sinks in internal/config/validate.go.
use rss2msg.Prelude.{
  ℕ, zero, suc, ◌≤◌, ◌≡◌, ◌≢◌, refl, ◌∙◌, ap, Str, true, false, List, [], ◌∷◌, Memᴰ, arith, length,
  is_none, str_eq_iff, if◌then◌else◌, Bool-cases, inl, inr, ◌⊎◌,
}
use rss2msg.Prelude.Map.{lookup}
use rss2msg.SinkGraph.{mem_str, or_no_children, Found, clear, exhausted, cycle, go_on, walk, dfs}

module _ (m : List (Str × List Str)) where
  abbrev pub children_of : Str → List Str
  children_of n = or_no_children (lookup n m)

  -- The composites below `n` form a finite tree.
  pub data IsFinite : Str → Type 0 where
    node :
        {n : Str}
        → ((c : Str) → Memᴰ c (children_of n) → is_none (lookup c m) ≡ false → IsFinite c)
        → IsFinite n

  go_on-clear : (a b : Found) → go_on a b ≡ clear → (a ≡ clear) × (b ≡ clear)
  go_on-clear clear b h = (refl, h)
  go_on-clear exhausted b h = absurd (cc)
  go_on-clear (cycle p) b h = absurd (cc)

  walk_step :
      (go : Str → Found) (path : List Str) (d : Str) (cs : List Str)
      → walk m go path (d ∷ cs) ≡ clear
      → (walk m go path cs ≡ clear) × ((is_none (lookup d m) ≡ true) ⊎ (go d ≡ clear))
  unfolding walk
  walk_step go path d cs h = elim (Bool-cases (is_none (lookup d m))) [
    | inl e ↦ (rw e at h, inl e)
    | inr e ↦ elim (Bool-cases (mem_str d path)) [
      | inl q ↦ absurd (cc (rw (e, q) at h))
      | inr q ↦ let (a, b) = go_on-clear _ _ (rw (e, q) at h) in (b, inr a)
    ]
  ]

  walk-clear :
      (go : Str → Found) (path cs : List Str)
      → walk m go path cs ≡ clear
      → (c : Str) → Memᴰ c cs
      → is_none (lookup c m) ≡ false
      → go c ≡ clear
  walk-clear go path [] h c k s = elim k [ ]
  walk-clear go path (d ∷ cs) h c (Memᴰ.head q) s = elim (walk_step go path d cs h).1 [
    | inl e ↦ absurd (cc)
    | inr e ↦ ap go q ∙ e
  ]
  walk-clear go path (d ∷ cs) h c (Memᴰ.tail k) s =
      walk-clear go path cs (walk_step go path d cs h).0 c k s

  pub dfs-IsFinite : (fuel : ℕ) (n : Str) (path : List Str) → dfs m fuel n path ≡ clear → IsFinite n
  unfolding dfs
  dfs-IsFinite zero n path h = absurd (cc)
  dfs-IsFinite (suc fuel) n path h = node (λ c k s.
      dfs-IsFinite fuel c (n ∷ path)
        (walk-clear (λ c. dfs m fuel c (n ∷ path)) (n ∷ path) (children_of n) h c k s))

  -- How many entries of a list of composites have a name off the path.
  abbrev off_path : List Str → List (Str × List Str) → ℕ
  off_path path [] = 0
  off_path path ((k, cs) ∷ es) =
      let rest = off_path path es in if mem_str k path then rest else suc rest

  off_path-cons :
      (n : Str) (path : List Str) (es : List (Str × List Str))
      → off_path (n ∷ path) es ≤ off_path path es
  unfolding mem_str
  off_path-cons n path [] = omega arith
  off_path-cons n path ((k, cs) ∷ es) = ground (arith, off_path-cons n path es)

  off_path-lt :
      (n : Str) (path : List Str) (es : List (Str × List Str))
      → is_none (lookup n es) ≡ false
      → mem_str n path ≡ false
      → suc (off_path (n ∷ path) es) ≤ off_path path es
  unfolding mem_str lookup
  off_path-lt n path [] h k = absurd (cc)
  off_path-lt n path ((j, cs) ∷ es) h k =
      ground (arith, str_eq_iff j n, str_eq_iff n j, off_path-cons n path es, off_path-lt n path es)

  walk-fuel :
      (go : Str → Found) (path : List Str)
      → ((c : Str) → is_none (lookup c m) ≡ false → mem_str c path ≡ false → go c ≢ exhausted)
      → (cs : List Str) → walk m go path cs ≢ exhausted
  unfolding walk
  walk-fuel go path ih [] h = absurd (cc)
  walk-fuel go path ih (c ∷ cs) h = elim (Bool-cases (is_none (lookup c m))) [
    | inl e ↦ walk-fuel go path ih cs (rw e at h)
    | inr e ↦ elim (Bool-cases (mem_str c path)) [
      | inl q ↦ cc (rw (e, q) at h)
      | inr q ↦
          either (go c) (ih c e q) (walk m go path cs) (walk-fuel go path ih cs) (rw (e, q) at h)
    ]
  ]
    where
      either : (a : Found) → a ≢ exhausted → (b : Found) → b ≢ exhausted → go_on a b ≢ exhausted
      either clear p b q k = q k
      either exhausted p b q k = p refl
      either (cycle x) p b q k = absurd (cc)

  pub dfs-fuel :
      (fuel : ℕ) (n : Str) (path : List Str)
      → is_none (lookup n m) ≡ false
      → mem_str n path ≡ false
      → off_path path m ≤ fuel
      → dfs m fuel n path ≢ exhausted
  unfolding dfs
  dfs-fuel zero n path s k le h = absurd (omega (arith, off_path-lt n path m s k))
  dfs-fuel (suc fuel) n path s k le h =
      walk-fuel (λ c. dfs m fuel c (n ∷ path)) (n ∷ path)
        (λ c t j. dfs-fuel fuel c (n ∷ path) t j (omega (arith, off_path-lt n path m s k)))
        (children_of n) h

  pub off_path-le : (path : List Str) (es : List (Str × List Str)) → off_path path es ≤ length es
  off_path-le path [] = omega arith
  off_path-le path ((k, cs) ∷ es) = ground (arith, off_path-le path es)
