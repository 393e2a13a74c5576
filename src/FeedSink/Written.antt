-- ===== src/FeedSink/Written.antt =====
-- What a write and a read of internal/sink/feed/store_memory.go do to the set of stored changes.
use mathlib.Core.List.{Perm, filter}
use mathlib.Core.List.Perm
use mathlib.Core.Path.{subst}
use rss2msg.Prelude.{
  ℕ, ◌≤◌, ◌≡◌, refl, sym, ◌∙◌, Str, Bool, false, not, List, [], ◌∷◌, ◌++◌, ◌⊎◌, All, length,
  length-Perm, length-take-le, take, take-all, arith, ltb, str_eq, str_eq_iff, Bool-cases, inl, inr,
}
use rss2msg.Prelude.Map.{insert, filter_keys, DistinctKeys, insert-DistinctKeys, lookup-filter_keys}
use rss2msg.Model.{Change}
use rss2msg.SinkGraph.{mem_str}
use rss2msg.FeedSink.Store.{
  MemoryStore, key, values, drop, keys, sorted, prune_locked, write, recent,
}
use rss2msg.FeedSink.First.{Descending, take-drop, drop-older, full_or_all}
use rss2msg.FeedSink.Newest.{
  Keyed, newest_first-perm, newest_first-Descending, passes, values-filter_keys, filter-split,
  keys-Nodup,
}

insert-Keyed : (c : Change) (m : List (Str × Change)) → Keyed m → Keyed (insert (key c) c m)
unfolding insert
insert-Keyed c [] h = (refl, tt)
insert-Keyed c ((k, d) ∷ m) h = elim (Bool-cases (str_eq k (key c))) [
  | inl e ↦ rw e (sym ((str_eq_iff k (key c)).0 e), h.1)
  | inr e ↦ rw e (h.0, insert-Keyed c m h.1)
]

filter_keys-Keyed : (p : Str → Bool) (m : List (Str × Change)) → Keyed m → Keyed (filter_keys p m)
unfolding filter_keys
filter_keys-Keyed p [] h = tt
filter_keys-Keyed p ((k, c) ∷ m) h = elim (Bool-cases (p k)) [
  | inl e ↦ rw e (h.0, filter_keys-Keyed p m h.1)
  | inr e ↦ rw e (filter_keys-Keyed p m h.1)
]

filter_keys-DistinctKeys :
    (p : Str → Bool) (m : List (Str × Change)) → DistinctKeys m → DistinctKeys (filter_keys p m)
unfolding filter_keys
filter_keys-DistinctKeys p [] h = tt
filter_keys-DistinctKeys p ((k, c) ∷ m) h = elim (Bool-cases (p k)) [
  | inl e ↦ rw e (lookup-filter_keys p k m ∙ rw (e, h.0) refl, filter_keys-DistinctKeys p m h.1)
  | inr e ↦ rw e (filter_keys-DistinctKeys p m h.1)
]

length-values : (m : List (Str × Change)) → length (values m) ≡ length m
length-values [] = refl
length-values ((k, c) ∷ m) = omega (arith, length-values m)

-- Every change stands under its key, no key twice, and there are no more than the limit.
pub record IsStore (m : MemoryStore) : Type 0 where
  pub keyed : Keyed m.by_key
  pub distinct : DistinctKeys m.by_key
  pub bounded : length m.by_key ≤ m.max

module _ (ranged : List Change → List Change)
    (ranged-perm : (cs : List Change) → Perm (ranged cs) cs) where
  sorted-perm : (m : List (Str × Change)) → Perm (sorted ranged m) (values m)
  unfolding sorted
  sorted-perm m = Perm.trans (newest_first-perm (ranged (values m))) (ranged-perm (values m))

  -- What is stored after a write is the first part of the arrangement.
  write_kept :
      (c : Change) (m : MemoryStore)
      → Keyed m.by_key
      → DistinctKeys m.by_key
      → Perm
          (values (write ranged c m).by_key)
          (take m.max (sorted ranged (insert (key c) c m.by_key)))
  unfolding write prune_locked
  write_kept c m h d =
      let all = insert (key c) c m.by_key in
      let gone = keys (drop m.max (sorted ranged all)) in
      let p : Str → Bool = λ k. not (mem_str k gone) in
      let h' = insert-Keyed c m.by_key h in
      let d' = insert-DistinctKeys (key c) c m.by_key d in
      let perm = sorted-perm all in
      elim (Bool-cases (ltb m.max (length all))) [
        | inl e ↦ rw e (
            subst (λ cs. Perm cs (take m.max (sorted ranged all)))
              (sym (values-filter_keys p all h'))
              (subst (λ cs. Perm (filter (passes p) (values all)) cs)
                (filter-split m.max (sorted ranged all)
                  (Perm.nodup (Perm.map key (Perm.symm perm)) (keys-Nodup all h' d')))
                (Perm.filter (passes p) (Perm.symm perm))))
        | inr e ↦ rw e (
            subst (Perm (values all)) (sym (take-all m.max (sorted ranged all) (fits all e)))
              (Perm.symm perm))
      ]
    where
      fits :
          (all : List (Str × Change))
          → ltb m.max (length all) ≡ false
          → length (sorted ranged all) ≤ m.max
      fits all e =
          let a = length-Perm (sorted-perm all) in let b = length-values all in ground (arith, a, b)

  -- A write stores the change under its key and keeps, of all that are stored then, the newest up to
  -- the limit, and nothing else: they are split into some that stay and the rest, no change of the rest
  -- was detected later than one that stays, and there is a rest only if the limit is reached.
  pub write-newest :
      (c : Change) (m : MemoryStore)
      → Keyed m.by_key
      → DistinctKeys m.by_key
      → (kept rest : List Change) × Perm (values (write ranged c m).by_key) kept
        × Perm (kept ++ rest) (values (insert (key c) c m.by_key))
        × All (λ d. All (λ k. d.detected_at ≤ k.detected_at) kept) rest
        × (length kept ≤ m.max)
        × ((length kept ≡ m.max) ⊎ (rest ≡ []))
  unfolding sorted
  write-newest c m h d =
      let all = sorted ranged (insert (key c) c m.by_key) in
      (
        take m.max all,
        drop m.max all,
        write_kept c m h d,
        subst (λ cs. Perm cs (values (insert (key c) c m.by_key))) (sym (take-drop m.max all))
            (sorted-perm (insert (key c) c m.by_key)),
        drop-older m.max all
            (newest_first-Descending (ranged (values (insert (key c) c m.by_key)))),
        length-take-le m.max all,
        full_or_all m.max all,
      )

  write-Keyed : (c : Change) (m : MemoryStore) → Keyed m.by_key → Keyed (write ranged c m).by_key
  unfolding write prune_locked
  write-Keyed c m h = elim (Bool-cases (ltb m.max (length (insert (key c) c m.by_key)))) [
    | inl e ↦ rw e (filter_keys-Keyed _ (insert (key c) c m.by_key) (insert-Keyed c m.by_key h))
    | inr e ↦ rw e (insert-Keyed c m.by_key h)
  ]

  write-DistinctKeys :
      (c : Change) (m : MemoryStore)
      → DistinctKeys m.by_key
      → DistinctKeys (write ranged c m).by_key
  unfolding write prune_locked
  write-DistinctKeys c m h = elim (Bool-cases (ltb m.max (length (insert (key c) c m.by_key)))) [
    | inl e ↦ rw e (
        filter_keys-DistinctKeys _ (insert (key c) c m.by_key)
          (insert-DistinctKeys (key c) c m.by_key h))
    | inr e ↦ rw e (insert-DistinctKeys (key c) c m.by_key h)
  ]

  write_max : (c : Change) (m : MemoryStore) → (write ranged c m).max ≡ m.max
  unfolding write prune_locked
  write_max c m = elim (Bool-cases (ltb m.max (length (insert (key c) c m.by_key)))) [
    | inl e ↦ rw e refl
    | inr e ↦ rw e refl
  ]

  -- A write keeps the map in order and its size within the limit.
  pub write-IsStore : (c : Change) (m : MemoryStore) → IsStore m → IsStore (write ranged c m)
  write-IsStore c m s =
      let perm = length-Perm (write_kept c m s.keyed s.distinct) in
      let size = length-values (write ranged c m).by_key in
      let most = length-take-le m.max (sorted ranged (insert (key c) c m.by_key)) in
      let same = write_max c m in
      record {
        keyed = write-Keyed c m s.keyed;
        distinct = write-DistinctKeys c m s.distinct;
        bounded = omega (arith, perm, size, most, same);
      }

  -- A read hands out the first `n` of an arrangement of all that are stored in which no change is
  -- older than one behind it.
  pub recent-newest :
      (n : ℕ) (m : MemoryStore)
      → (all : List Change) × (recent ranged n m ≡ take n all)
        × Perm all (values m.by_key)
        × Descending all
  unfolding recent sorted
  recent-newest n m =
      let all = sorted ranged m.by_key in
      (
        all,
        elim (Bool-cases (ltb n (length all))) [
          | inl e ↦ rw e refl
          | inr e ↦ rw e (sym (take-all n all (few all e)))
        ],
        sorted-perm m.by_key,
        newest_first-Descending (ranged (values m.by_key)),
      )
    where
      few : (all : List Change) → ltb n (length all) ≡ false → length all ≤ n
      few all e = ground arith
