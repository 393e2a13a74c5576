-- ===== src/Prelude/Map.antt =====
-- A Go map with string keys, as an association list. Ranging over it in another order gives the same
-- entries.
use rss2msg.Prelude.Tests.{Bool-cases, if◌then◌else◌}
use rss2msg.Prelude.Text.{Str, str_eq, str_eq_iff}
use mathlib.Core.Path.{◌≡◌, refl, ap, sym, ◌∙◌}
use mathlib.Core.Logic.{◌≢◌, inl, inr}
use mathlib.Core.Bool.{Bool, true, false}
use mathlib.Core.Option.{Option, none, some}
use mathlib.Core.List.{List, [], ◌∷◌}
use native.Mathlib.Omega.{arith}

ne_sym : (a b : Str) → str_eq a b ≡ false → str_eq b a ≡ false
ne_sym a b h = ground (arith, str_eq_iff a b, str_eq_iff b a)

pub str_eq-false : (a b : Str) → a ≢ b → str_eq a b ≡ false
str_eq-false a b ne = elim (Bool-cases (str_eq a b)) [
  | inl e ↦ absurd (ne ((str_eq_iff a b).0 e))
  | inr e ↦ e
]

module _ {ℓ} {V : Type ℓ} where
  -- v, ok := m[k]
  unfoldable pub lookup : Str → List (Str × V) → Option V
  lookup k [] = none
  lookup k ((j, v) ∷ m) = if str_eq j k then some v else lookup k m

  -- m[k] = v
  unfoldable pub insert : Str → V → List (Str × V) → List (Str × V)
  insert k v [] = (k, v) ∷ []
  insert k v ((j, w) ∷ m) = if str_eq j k then (j, v) ∷ m else (j, w) ∷ insert k v m

  -- The entries whose key passes a test.
  unfoldable pub filter_keys : (Str → Bool) → List (Str × V) → List (Str × V)
  filter_keys p [] = []
  filter_keys p ((j, v) ∷ m) = let rest = filter_keys p m in if p j then (j, v) ∷ rest else rest

  pub lookup-insert :
      (k j : Str) (v : V) (m : List (Str × V))
      → lookup j (insert k v m) ≡ (if str_eq k j then some v else lookup j m)
  unfolding lookup insert
  lookup-insert k j v [] = refl
  lookup-insert k j v ((i, w) ∷ m) =
      ground (arith, str_eq_iff k j, str_eq_iff i k, str_eq_iff i j, lookup-insert k j v m)

  pub lookup-filter_keys :
      (p : Str → Bool) (j : Str) (m : List (Str × V))
      → lookup j (filter_keys p m) ≡ (if p j then lookup j m else none)
  unfolding lookup filter_keys
  lookup-filter_keys p j [] = ground arith
  lookup-filter_keys p j ((i, w) ∷ m) =
      let same : str_eq i j ≡ true → p i ≡ p j = λ e. ap p ((str_eq_iff i j).0 e) in
      let ih = lookup-filter_keys p j m in
      elim (Bool-cases (str_eq i j)) [
        | inl e ↦ let q = same e in ground (arith, q, ih)
        | inr e ↦ ground (arith, ih)
      ]

  -- No two entries share a key, as in every Go map.
  abbrev pub DistinctKeys : List (Str × V) → Type ℓ
  DistinctKeys [] = Unit
  DistinctKeys ((j, v) ∷ m) = (lookup j m ≡ none) × DistinctKeys m

  pub insert-DistinctKeys :
      (k : Str) (v : V) (m : List (Str × V)) → DistinctKeys m → DistinctKeys (insert k v m)
  unfolding lookup insert
  insert-DistinctKeys k v [] h = (refl, tt)
  insert-DistinctKeys k v ((j, w) ∷ m) h = elim (Bool-cases (str_eq j k)) [
    | inl e ↦ rw e h
    | inr e ↦ rw e (lookup-insert k j v m ∙ rw (ne_sym j k e) h.0, insert-DistinctKeys k v m h.1)
  ]

  -- The entries that pass a test.
  unfoldable pub filter_entries : (Str → V → Bool) → List (Str × V) → List (Str × V)
  filter_entries p [] = []
  filter_entries p ((j, v) ∷ m) =
      let rest = filter_entries p m in if p j v then (j, v) ∷ rest else rest

  abbrev pub keep_if : (V → Bool) → Option V → Option V
  keep_if p none = none
  keep_if p (some v) = if p v then some v else none

  lookup-filter_absent :
      (p : Str → V → Bool) (k : Str) (m : List (Str × V))
      → lookup k m ≡ none
      → lookup k (filter_entries p m) ≡ none
  unfolding lookup filter_entries
  lookup-filter_absent p k [] h = refl
  lookup-filter_absent p k ((j, v) ∷ m) h = elim (Bool-cases (str_eq j k)) [
    | inl e ↦ absurd (ground arith)
    | inr e ↦ ground (arith, lookup-filter_absent p k m)
  ]

  pub lookup-filter_entries :
      (p : Str → V → Bool) (k : Str) (m : List (Str × V))
      → DistinctKeys m
      → lookup k (filter_entries p m) ≡ keep_if (p k) (lookup k m)
  unfolding lookup filter_entries
  lookup-filter_entries p k [] h = refl
  lookup-filter_entries p k ((j, v) ∷ m) h = elim (Bool-cases (str_eq j k)) [
    | inr e ↦ ground (arith, lookup-filter_entries p k m h.1)
    | inl e ↦
        let q = (str_eq_iff j k).0 e in
        let gone : lookup k (filter_entries p m) ≡ none =
          lookup-filter_absent p k m (ap (λ x. lookup x m) (sym q) ∙ h.0) in
        let same : p j v ≡ p k v = ap (λ x. p x v) q in ground (arith, gone, same)
  ]

  pub filter_entries-DistinctKeys :
      (p : Str → V → Bool) (m : List (Str × V)) → DistinctKeys m → DistinctKeys (filter_entries p m)
  unfolding filter_entries
  filter_entries-DistinctKeys p [] h = tt
  filter_entries-DistinctKeys p ((j, v) ∷ m) h = elim (Bool-cases (p j v)) [
    | inl e ↦ rw e (lookup-filter_absent p j m h.0, filter_entries-DistinctKeys p m h.1)
    | inr e ↦ rw e (filter_entries-DistinctKeys p m h.1)
  ]
