-- ===== src/Wire/Checked.antt =====
-- What the checks of internal/config/validate.go give the linking of the sinks.
use rss2msg.Prelude.{
  ◌≡◌, refl, ◌∙◌, ap, sym, Str, true, false, Option, none, some, List, [], ◌∷◌, Memᴰ, arith,
  is_empty, is_none, str_eq, str_eq_iff, if◌then◌else◌, Option-cases, Bool-cases, inl, inr, ◌⊎◌,
}
use rss2msg.Prelude.Map.{lookup, insert, lookup-insert}
use rss2msg.SinkGraph.{
  SinkConfig, is_composite, mem_str, Fault, check_names, sink_names, sink_drivers,
  composite_children, composite_cycle, check_children, check_composite, check_dead_letter,
  first_fault, check_links, check_sinks,
}
use rss2msg.SinkGraph.Cycle.{IsFinite}
use rss2msg.SinkGraph.Checked.{composite_cycle_iff}
use rss2msg.Wire.{find_sink}

first_fault-none : (a b : Option Fault) → first_fault a b ≡ none → (a ≡ none) × (b ≡ none)
first_fault-none none b h = (refl, h)
first_fault-none (some f) b h = absurd (cc)

-- No name is declared twice, nor stands in `names`.
abbrev Fresh : List Str → List SinkConfig → Type 0
Fresh names [] = Unit {0}
Fresh names (s ∷ ss) = (mem_str s.name names ≡ false) × Fresh (s.name ∷ names) ss

check_names-Fresh :
    (ss : List SinkConfig) (names : List Str) → check_names ss names ≡ none → Fresh names ss
unfolding check_names
check_names-Fresh [] names h = tt
check_names-Fresh (s ∷ ss) names h = ground (arith, check_names-Fresh ss (s.name ∷ names))

-- A name that stands in `names` is not declared.
find-Fresh :
    (n : Str) (names : List Str) (ss : List SinkConfig)
    → Fresh names ss
    → mem_str n names ≡ true
    → find_sink n ss ≡ none
unfolding find_sink mem_str
find-Fresh n names [] h k = refl
find-Fresh n names (s ∷ ss) h k = elim (Bool-cases (str_eq s.name n)) [
  | inl e ↦ absurd (cc (h.0, k, (str_eq_iff s.name n).0 e))
  | inr e ↦ rw e (find-Fresh n (s.name ∷ names) ss h.1 (ground arith))
]

abbrev pub entry : Option SinkConfig → Option (List Str) → Option (List Str)
entry none old = old
entry (some s) old = if is_composite s then some s.children else old

lookup-composite_children_from :
    (n : Str) (names : List Str) (ss : List SinkConfig) (m : List (Str × List Str))
    → Fresh names ss
    → lookup n (composite_children ss m) ≡ entry (find_sink n ss) (lookup n m)
unfolding composite_children find_sink
lookup-composite_children_from n names [] m h = refl
lookup-composite_children_from n names (s ∷ ss) m h =
    lookup-composite_children_from n (s.name ∷ names) ss _ h.1 ∙ step
  where
    m' : List (Str × List Str)
    m' = if is_composite s then insert s.name s.children m else m

    step :
        entry (find_sink n ss) (lookup n m')
        ≡ entry (if str_eq s.name n then some s else find_sink n ss) (lookup n m)
    step = elim (Bool-cases (str_eq s.name n)) [
      | inl e ↦
          let gone = find-Fresh n (s.name ∷ names) ss h.1 (unfold mem_str in rw e) in
          rw (e, gone)
            (elim (Bool-cases (is_composite s)) [
              | inl q ↦ rw q (lookup-insert s.name n s.children m ∙ rw e)
              | inr q ↦ rw q
            ])
      | inr e ↦ rw e (elim (Bool-cases (is_composite s)) [
        | inl q ↦ rw q (ap (entry (find_sink n ss)) (lookup-insert s.name n s.children m ∙ rw e))
        | inr q ↦ rw q
      ])
    ]

pub mem-find_sink :
    (n : Str) (ss : List SinkConfig)
    → mem_str n (sink_names ss) ≡ true
    → (s : SinkConfig) × (find_sink n ss ≡ some s)
unfolding mem_str sink_names find_sink
mem-find_sink n [] h = absurd (cc)
mem-find_sink n (s ∷ ss) h = elim (Bool-cases (str_eq s.name n)) [
  | inl e ↦ (s, rw e)
  | inr e ↦ rw e (mem-find_sink n ss (ground arith))
]

pub find_sink-mem :
    (n : Str) (ss : List SinkConfig) (s : SinkConfig)
    → find_sink n ss ≡ some s
    → Memᴰ s ss × (s.name ≡ n)
unfolding find_sink
find_sink-mem n [] s h = absurd (cc)
find_sink-mem n (t ∷ ss) s h = elim (Bool-cases (str_eq t.name n)) [
  | inl e ↦
      let q : t ≡ s = cc (rw e at h) in
      (Memᴰ.head (sym q), sym (ap (λ x. x.name) q) ∙ (str_eq_iff t.name n).0 e)
  | inr e ↦ let (a, b) = find_sink-mem n ss s (rw e at h) in (Memᴰ.tail a, b)
]

check_links-at :
    (names : List Str) (drivers : List (Str × Str)) (m : List (Str × List Str))
    (ss : List SinkConfig) (s : SinkConfig)
    → check_links names drivers m ss ≡ none
    → Memᴰ s ss
    → is_composite s ≡ true
    → check_composite names m s ≡ none
unfolding check_links
check_links-at names drivers m [] s h k c = elim k [ ]
check_links-at names drivers m (t ∷ ss) s h (Memᴰ.head q) c =
    let (a, b) = first_fault-none (check_dead_letter names drivers t) _ h in
    let (d, e) =
      first_fault-none (if is_composite t then check_composite names m t else none)
        (check_links names drivers m ss) b in
    let fans : is_composite t ≡ true = sym (ap is_composite q) ∙ c in
    ap (check_composite names m) q ∙ (rw fans at d)
check_links-at names drivers m (t ∷ ss) s h (Memᴰ.tail k) c =
    let (a, b) = first_fault-none (check_dead_letter names drivers t) _ h in
    let (d, e) =
      first_fault-none (if is_composite t then check_composite names m t else none)
        (check_links names drivers m ss) b in
    check_links-at names drivers m ss s e k c

check_children-All :
    (name : Str) (names cs seen : List Str)
    → check_children name names cs seen ≡ none
    → (c : Str) → Memᴰ c cs
    → mem_str c names ≡ true
unfolding check_children
check_children-All name names [] seen h c k = elim k [ ]
check_children-All name names (d ∷ cs) seen h c (Memᴰ.head q) =
    ap (λ x. mem_str x names) q ∙ (ground arith)
check_children-All name names (d ∷ cs) seen h c (Memᴰ.tail k) =
    check_children-All name names cs (d ∷ seen) (ground arith) c k

List-cases : (cs : List Str) → (cs ≡ []) ⊎ (c : Str) × (rest : List Str) × (cs ≡ c ∷ rest)
List-cases [] = inl refl
List-cases (c ∷ cs) = inr (c, cs, refl)

eq-nil : (s : Str) → is_empty s ≡ true → s ≡ []
eq-nil [] h = refl
eq-nil (x ∷ s) h = absurd (cc)

composite_parts :
    (names : List Str) (m : List (Str × List Str)) (s : SinkConfig)
    → check_composite names m s ≡ none
    → (check_children s.name names s.children [] ≡ none) × (composite_cycle s.name m ≡ [])
unfolding check_composite
composite_parts names m s h = elim (List-cases s.children) [
  | inl p ↦ absurd (cc (rw p at h))
  | inr (c, rest, p) ↦ elim (Option-cases (check_children s.name names (c ∷ rest) [])) [
    | inr (f, q) ↦ absurd (cc (rw (p, q) at h))
    | inl q ↦ elim (Bool-cases (is_empty (composite_cycle s.name m))) [
      | inr e ↦ absurd (cc (rw (p, q, e) at h))
      | inl e ↦ (rw p q, eq-nil (composite_cycle s.name m) e)
    ]
  ]
]

-- What the checks establish of the composite with one name.
pub record IsChecked (sinks : List SinkConfig) (n : Str) (s : SinkConfig) : Type 0 where
  pub declared : (c : Str) → Memᴰ c s.children → mem_str c (sink_names sinks) ≡ true
  pub finite : IsFinite (composite_children sinks []) n

module _ (sinks : List SinkConfig) (checked : check_sinks sinks ≡ none) where
  parts :
      Fresh [] sinks
      × (check_links (sink_names sinks) (sink_drivers sinks []) (composite_children sinks []) sinks
          ≡ none)
  unfolding check_sinks
  parts =
      let (a, b) = first_fault-none (check_names sinks []) _ checked in
      (check_names-Fresh sinks [] a, b)

  pub lookup-composite_children :
      (n : Str) → lookup n (composite_children sinks []) ≡ entry (find_sink n sinks) none
  lookup-composite_children n =
      lookup-composite_children_from n [] sinks [] parts.0
      ∙ ap (entry (find_sink n sinks)) (unfold lookup in refl)

  pub composite-IsChecked :
      (n : Str) (s : SinkConfig)
      → find_sink n sinks ≡ some s
      → is_composite s ≡ true
      → IsChecked sinks n s
  composite-IsChecked n s found fans =
      let (here, same) = find_sink-mem n sinks s found in
      let ok =
        check_links-at (sink_names sinks) (sink_drivers sinks []) (composite_children sinks [])
          sinks s parts.1 here fans in
      let (a, b) = composite_parts (sink_names sinks) (composite_children sinks []) s ok in
      let listed : is_none (lookup s.name (composite_children sinks [])) ≡ false =
        rw (lookup-composite_children s.name) (rw same (rw found (rw fans))) in
      record {
        declared = check_children-All s.name (sink_names sinks) s.children [] a;
        finite =
            rw same at ((composite_cycle_iff (composite_children sinks []) s.name listed).1.0 b);
      }
