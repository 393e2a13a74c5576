-- ===== src/FeedSink/First.antt =====
-- The first changes of a list that is in order, which are those that internal/sink/feed/store_memory.go
-- keeps, and those behind them.

use rss2msg.Prelude.{
  ℕ, zero, suc, ◌≤◌, ◌≡◌, refl, ap, List, [], ◌∷◌, ◌++◌, ◌⊎◌, All, length, take, inl, inr,
}
use rss2msg.Model.{Change}
use rss2msg.FeedSink.Store.{drop}

-- No change is older than one behind it.
abbrev pub Descending : List Change → Type 0
Descending [] = Unit {0}
Descending (c ∷ cs) = All (λ d. d.detected_at ≤ c.detected_at) cs × Descending cs

pub take-drop : (n : ℕ) (cs : List Change) → take n cs ++ drop n cs ≡ cs
take-drop zero cs = refl
take-drop (suc n) [] = refl
take-drop (suc n) (c ∷ cs) = ap (λ ds. c ∷ ds) (take-drop n cs)

drop-All : (P : Change → Type 0) (n : ℕ) (cs : List Change) → All P cs → All P (drop n cs)
drop-All P zero cs h = h
drop-All P (suc n) [] h = tt
drop-All P (suc n) (c ∷ cs) h = drop-All P n cs h.1

-- The changes of a list are no newer than those of another.
abbrev NoNewer : List Change → List Change → Type 0
NoNewer kept rest = All (λ d. All (λ k. d.detected_at ≤ k.detected_at) kept) rest

NoNewer-nil : (rest : List Change) → NoNewer [] rest
NoNewer-nil [] = tt
NoNewer-nil (d ∷ rest) = (tt, NoNewer-nil rest)

NoNewer-cons :
    (c : Change) (kept rest : List Change)
    → All (λ d. d.detected_at ≤ c.detected_at) rest
    → NoNewer kept rest
    → NoNewer (c ∷ kept) rest
NoNewer-cons c kept [] h k = tt
NoNewer-cons c kept (d ∷ rest) h k = ((h.0, k.0), NoNewer-cons c kept rest h.1 k.1)

-- Where no change is older than one behind it, those behind the first are no newer than these.
pub drop-older : (n : ℕ) (cs : List Change) → Descending cs → NoNewer (take n cs) (drop n cs)
drop-older zero cs h = NoNewer-nil cs
drop-older (suc n) [] h = tt
drop-older (suc n) (c ∷ cs) h =
    NoNewer-cons c (take n cs) (drop n cs) (drop-All (λ d. d.detected_at ≤ c.detected_at) n cs h.0)
      (drop-older n cs h.1)

pub full_or_all : (n : ℕ) (cs : List Change) → (length (take n cs) ≡ n) ⊎ (drop n cs ≡ [])
full_or_all zero cs = inl refl
full_or_all (suc n) [] = inr refl
full_or_all (suc n) (c ∷ cs) = elim (full_or_all n cs) [ inl e ↦ inl (ap suc e) | inr e ↦ inr e ]
