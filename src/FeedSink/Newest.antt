-- ===== src/FeedSink/Newest.antt =====
-- What internal/sink/feed/store_memory.go keeps and hands out: the newest changes.
use mathlib.Core.Bool.{Bool-discrete}
use mathlib.Core.List.{
  Perm, Mem, mem-cons, mem-cons_self, mem-cons_of_mem, not-mem-nil, Nodup, Nodup-nil, Nodup-cons,
  Nodup-append, Disjoint-left, filter, filter-append, append-nil,
}
use mathlib.Core.Logic.Or
use mathlib.Core.Path.{subst}
use mathlib.Core.List.Perm
use mathlib.Core.Logic.{ite}
use rss2msg.Prelude.{
  ℕ, ◌≤◌, ◌≡◌, refl, sym, ap, ◌∙◌, Str, Bool, true, false, not, none, List, [], ◌∷◌, ◌++◌, All,
  take, arith, ltb, str_eq, str_eq_iff, str_eq_of_eq, if◌then◌else◌, Bool-cases, inl, inr,
}
use rss2msg.Prelude.Map.{lookup, filter_keys, DistinctKeys}
use rss2msg.Model.{Change}
use rss2msg.SinkGraph.{mem_str}
use rss2msg.FeedSink.Store.{key, values, drop, insert_newest, newest_first, keys}
use rss2msg.FeedSink.First.{take-drop, Descending}

-- Every entry stands under its own key.
abbrev pub Keyed : List (Str × Change) → Type 0
Keyed [] = Unit {0}
Keyed ((k, c) ∷ m) = (key c ≡ k) × Keyed m

insert_newest-perm : (c : Change) (cs : List Change) → Perm (insert_newest c cs) (c ∷ cs)
unfolding insert_newest
insert_newest-perm c [] = Perm.refl _
insert_newest-perm c (d ∷ ds) = elim (Bool-cases (ltb c.detected_at d.detected_at)) [
  | inl e ↦ rw e (Perm.trans (Perm.cons d (insert_newest-perm c ds)) (Perm.swap c d ds))
  | inr e ↦ rw e (Perm.refl _)
]

pub newest_first-perm : (cs : List Change) → Perm (newest_first cs) cs
unfolding newest_first
newest_first-perm [] = Perm.refl []
newest_first-perm (c ∷ cs) =
    Perm.trans (insert_newest-perm c (newest_first cs)) (Perm.cons c (newest_first-perm cs))

below :
    (c d : Change) (cs : List Change)
    → d.detected_at ≤ c.detected_at
    → All (λ x. x.detected_at ≤ d.detected_at) cs
    → All (λ x. x.detected_at ≤ c.detected_at) cs
below c d [] h k = tt
below c d (x ∷ cs) h k = (omega (arith, k.0), below c d cs h k.1)

insert_newest-All :
    (z c : Change) (cs : List Change)
    → c.detected_at ≤ z.detected_at
    → All (λ x. x.detected_at ≤ z.detected_at) cs
    → All (λ x. x.detected_at ≤ z.detected_at) (insert_newest c cs)
unfolding insert_newest
insert_newest-All z c [] h k = (h, tt)
insert_newest-All z c (d ∷ ds) h k = elim (Bool-cases (ltb c.detected_at d.detected_at)) [
  | inl e ↦ rw e (k.0, insert_newest-All z c ds h k.1)
  | inr e ↦ rw e (h, k)
]

insert_newest-Descending :
    (c : Change) (cs : List Change) → Descending cs → Descending (insert_newest c cs)
unfolding insert_newest
insert_newest-Descending c [] h = (tt, tt)
insert_newest-Descending c (d ∷ ds) h = elim (Bool-cases (ltb c.detected_at d.detected_at)) [
  | inl e ↦ rw e (insert_newest-All d c ds (ground arith) h.0, insert_newest-Descending c ds h.1)
  | inr e ↦ rw e ((ground arith, below c d ds (ground arith) h.0), h)
]

pub newest_first-Descending : (cs : List Change) → Descending (newest_first cs)
unfolding newest_first
newest_first-Descending [] = tt
newest_first-Descending (c ∷ cs) =
    insert_newest-Descending c (newest_first cs) (newest_first-Descending cs)

-- The changes whose key passes a test.
abbrev pub passes : (p : Str → Bool) (c : Change) → Dec (p (key c) ≡ true)
passes p c = Bool-discrete (p (key c)) true

ite-Bool : {A : Type 0} (b : Bool) (x y : A) → ite (Bool-discrete b true) x y ≡ (if b then x else y)
ite-Bool true x y = refl
ite-Bool false x y = refl

filter-step :
    (p : Str → Bool) (c : Change) (cs : List Change)
    → filter (passes p) (c ∷ cs)
      ≡ (if p (key c) then c ∷ filter (passes p) cs else filter (passes p) cs)
filter-step p c cs = ite-Bool (p (key c)) (c ∷ filter (passes p) cs) (filter (passes p) cs)

pub values-filter_keys :
    (p : Str → Bool) (m : List (Str × Change))
    → Keyed m
    → values (filter_keys p m) ≡ filter (passes p) (values m)
unfolding filter_keys
values-filter_keys p [] h = refl
values-filter_keys p ((k, c) ∷ m) h =
    let ih = values-filter_keys p m h.1 in
    let step = filter-step p c (values m) in
    elim (Bool-cases (p k)) [
      | inl e ↦ rw e (ap (λ cs. c ∷ cs) ih ∙ sym (step ∙ rw (ap p h.0 ∙ e) refl))
      | inr e ↦ rw e (ih ∙ sym (step ∙ rw (ap p h.0 ∙ e) refl))
    ]

filter-all :
    (p : Str → Bool) (cs : List Change) → All (λ c. p (key c) ≡ true) cs → filter (passes p) cs ≡ cs
filter-all p [] h = refl
filter-all p (c ∷ cs) h = filter-step p c cs ∙ rw h.0 (ap (λ ds. c ∷ ds) (filter-all p cs h.1))

filter-none :
    (p : Str → Bool) (cs : List Change)
    → All (λ c. p (key c) ≡ false) cs
    → filter (passes p) cs ≡ []
filter-none p [] h = refl
filter-none p (c ∷ cs) h = filter-step p c cs ∙ rw h.0 (filter-none p cs h.1)

bool_prop : {a b : Bool} → IsProp (a ≡ b)
bool_prop = hlevel

Mem-mem_str : (x : Str) (ys : List Str) → Mem x ys → mem_str x ys ≡ true
unfolding mem_str
Mem-mem_str x [] h = absurd (not-mem-nil h)
Mem-mem_str x (y ∷ ys) h =
    Or.elim bool_prop (mem-cons.0 h) (λ e. rw (str_eq_of_eq y x (sym e)) refl)
      (λ m. let ih = Mem-mem_str x ys m in ground (arith, ih))

mem_str-Mem : (x : Str) (ys : List Str) → mem_str x ys ≡ true → Mem x ys
unfolding mem_str
mem_str-Mem x [] h = absurd (cc)
mem_str-Mem x (y ∷ ys) h = elim (Bool-cases (str_eq y x)) [
  | inl e ↦ mem-cons.1 (∣ inl (sym ((str_eq_iff y x).0 e)) ∣₁)
  | inr e ↦ mem-cons.1 (∣ inr (mem_str-Mem x ys (rw e at h)) ∣₁)
]

lookup-none :
    (k : Str) (m : List (Str × Change))
    → Keyed m
    → lookup k m ≡ none
    → mem_str k (keys (values m)) ≡ false
unfolding lookup mem_str
lookup-none k [] h e = refl
lookup-none k ((j, c) ∷ m) h e = elim (Bool-cases (str_eq j k)) [
  | inl q ↦ absurd (cc (rw q at e))
  | inr q ↦ rw h.0 (rw q (lookup-none k m h.1 (rw q at e)))
]

pub keys-Nodup : (m : List (Str × Change)) → Keyed m → DistinctKeys m → Nodup (keys (values m))
keys-Nodup [] h d = Nodup-nil
keys-Nodup ((k, c) ∷ m) h d = Nodup-cons.1 (
  λ mem. absurd (cc (Mem-mem_str (key c) (keys (values m)) mem, h.0, lookup-none k m h.1 d.0)),
  keys-Nodup m h.1 d.1,
)

keys-append : (cs ds : List Change) → keys (cs ++ ds) ≡ keys cs ++ keys ds
keys-append [] ds = refl
keys-append (c ∷ cs) ds = ap (λ ks. key c ∷ ks) (keys-append cs ds)

-- The keys of the first part of a list without double keys are not among those of the rest.
apart :
    (cs : List Change) (gone : List Str)
    → ((x : Str) → Mem x (keys cs) → ¬ (Mem x gone))
    → All (λ c. not (mem_str (key c) gone) ≡ true) cs
apart [] gone h = tt
apart (c ∷ cs) gone h = (
  elim (Bool-cases (mem_str (key c) gone)) [
    | inl e ↦ absurd (h (key c) mem-cons_self (mem_str-Mem (key c) gone e))
    | inr e ↦ rw e refl
  ],
  apart cs gone (λ x m. h x (mem-cons_of_mem (key c) m)),
)

within :
    (cs : List Change) (gone : List Str)
    → ((x : Str) → Mem x (keys cs) → Mem x gone)
    → All (λ c. not (mem_str (key c) gone) ≡ false) cs
within [] gone h = tt
within (c ∷ cs) gone h = (
  rw (Mem-mem_str (key c) gone (h (key c) mem-cons_self)) refl,
  within cs gone (λ x m. h x (mem-cons_of_mem (key c) m)),
)

pub filter-split :
    (n : ℕ) (cs : List Change)
    → Nodup (keys cs)
    → filter (passes (λ k. not (mem_str k (keys (drop n cs))))) cs ≡ take n cs
filter-split n cs d =
    let gone = keys (drop n cs) in
    let p : Str → Bool = λ k. not (mem_str k gone) in
    let split : Nodup (keys (take n cs) ++ gone) =
      subst Nodup (sym (ap keys (take-drop n cs)) ∙ keys-append (take n cs) (drop n cs)) d in
    let kept =
      filter-all p (take n cs)
        (apart (take n cs) gone ((Disjoint-left.0 (Nodup-append.0 split).2))) in
    let lost = filter-none p (drop n cs) (within (drop n cs) gone (λ x m. m)) in
    ap (filter (passes p)) (sym (take-drop n cs))
    ∙ filter-append (passes p) (take n cs) (drop n cs)
    ∙ rw (kept, lost) (append-nil (take n cs))
