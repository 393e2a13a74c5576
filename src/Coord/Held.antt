-- ===== src/Coord/Held.antt =====
-- What leaves the row of a held lease in place (internal/coord/dynamodb).
use rss2msg.Prelude.{
  ℕ, ◌+◌, ◌≤◌, ◌≡◌, ◌≢◌, refl, ◌∙◌, ap, sym, Str, true, false, not, Option, none, some, List, [],
  ◌∷◌, All, arith, str_eq, str_eq_iff, str_eq_refl, Bool-cases, inl, inr,
}
use rss2msg.Prelude.Map.{lookup, lookup-insert, lookup-filter_keys}
use rss2msg.Errors.{Err}
use rss2msg.Model.{Time}
use rss2msg.Coord.{
  Row, Table, Lease, Coordinator, Write, written, condition_failed, failed, unix_milli, may_take,
  is_mine, put_item, delete_item, conditional_delete, after_put, lock_key, try_acquire, is_held,
  release_held, release, delete_all, with_faults, close_held, close,
}

-- The row of a key is owner `a`'s and does not expire before `until`.
abbrev pub Holds : Str → Str → ℕ → Table → Type 0
Holds k a until t = lookup k t ≡ some (record { owner = a; lease_expiry = until })

pub put-Holds :
    (k a : Str) (until : ℕ) (fault : Option Err) (key : Str) (row : Row) (now : ℕ) (t : Table)
    → now ≤ until
    → Holds k a until t
    → Holds k a until (put_item fault key row now t).1
      × ((put_item fault key row now t).0 ≡ written → str_eq key k ≡ false)
unfolding put_item
put-Holds k a until (some e) key row now t le h = (h, λ w. absurd (cc))
put-Holds k a until none key row now t le h = elim (Bool-cases (str_eq key k)) [
  | inl e ↦
      let same = (str_eq_iff key k).0 e in
      let refused : may_take now (lookup key t) ≡ false =
        ap (λ j. may_take now (lookup j t)) same ∙ ap (may_take now) h ∙ (ground arith) in
      rw refused (h, λ w. absurd (cc))
  | inr e ↦ elim (Bool-cases (may_take now (lookup key t))) [
    | inl p ↦ rw p (lookup-insert key k row t ∙ rw e h, λ w. e)
    | inr p ↦ rw p (h, λ w. absurd (cc))
  ]
]

-- Only the owner's own token deletes the row, and only under its key.
delete-Holds :
    (k a : Str) (until : ℕ) (fault : Option Err) (l : Lease) (t : Table)
    → (l.owner ≡ a → str_eq l.key k ≡ false)
    → Holds k a until t
    → Holds k a until (conditional_delete fault l t).1
unfolding conditional_delete delete_item
delete-Holds k a until (some e) l t other h = h
delete-Holds k a until none l t other h = elim (Bool-cases (is_mine l.owner (lookup l.key t))) [
  | inr p ↦ rw p h
  | inl p ↦ rw p (lookup-filter_keys (λ j. not (str_eq j l.key)) k t ∙ rw (kept p) h)
]
  where
    kept : is_mine l.owner (lookup l.key t) ≡ true → not (str_eq k l.key) ≡ true
    kept p = elim (Bool-cases (str_eq k l.key)) [
      | inr e ↦ rw e
      | inl e ↦
          let same = (str_eq_iff k l.key).0 e in
          let mine : str_eq a l.owner ≡ true =
            sym (ap (is_mine l.owner) (ap (λ j. lookup j t) (sym same) ∙ h)) ∙ p in
          let no = other (sym ((str_eq_iff a l.owner).0 mine)) in
          absurd (cc (no, same, str_eq_refl l.key))
    ]

delete_all-Holds :
    (k a : Str) (until : ℕ) (faults : ℕ → Option Err) (ls : List Lease) (t : Table)
    → All (λ l. l.owner ≢ a) ls
    → Holds k a until t
    → Holds k a until (delete_all (with_faults faults ls) t)
unfolding delete_all
delete_all-Holds k a until faults [] t o h = h
delete_all-Holds k a until faults (l ∷ ls) t o h =
    delete_all-Holds k a until faults ls _ o.1
      (delete-Holds k a until (faults l.serial) l t (λ e. absurd (o.0 e)) h)

-- The leases that a coordinator holds are not those of `a`.
abbrev HeldByOthers : Str → Option (List Lease) → Type 0
HeldByOthers a none = Unit {0}
HeldByOthers a (some ls) = All (λ l. l.owner ≢ a) ls

module _ (sha256_hex : Str → Str) where
  -- What may happen to the table, until the millisecond `until`, while `a` does not give a lease
  -- back: any instance tries for any feed, and the others release leases and close.
  pub data Step (a : Str) (until : ℕ) : Table → Table → Type 0 where
    acquires :
        (fault on_delete : Option Err) (feed_url : Str) (now : Time) (c : Coordinator) (t : Table)
        → unix_milli now ≤ until
        → Step a until t (try_acquire sha256_hex fault on_delete feed_url now c t).1.1
    releases :
        (fault : Option Err) (l : Lease) (c : Coordinator) (t : Table)
        → l.owner ≢ a
        → Step a until t (release fault l c t).1.1
    closes :
        (faults : ℕ → Option Err) (c : Coordinator) (t : Table)
        → HeldByOthers a c.held
        → Step a until t (close faults c t).1

  pub data Steps (a : Str) (until : ℕ) : Table → Table → Type 0 where
    stop : {t : Table} → Steps a until t t
    step : {t u v : Table} → Step a until t u → Steps a until u v → Steps a until t v

  acquire-Holds :
      (k a : Str) (until : ℕ) (fault on_delete : Option Err) (feed_url : Str) (now : Time)
      (c : Coordinator) (t : Table)
      → unix_milli now ≤ until
      → Holds k a until t
      → Holds k a until (try_acquire sha256_hex fault on_delete feed_url now c t).1.1
  unfolding try_acquire
  acquire-Holds k a until fault on_delete feed_url now c t le h =
      let key = lock_key sha256_hex feed_url in
      let row : Row = record {
        owner = c.owner;
        lease_expiry = unix_milli (now + c.lease_duration);
      } in
      let p = put_item fault key row (unix_milli now) t in
      let (kept, elsewhere) = put-Holds k a until fault key row (unix_milli now) t le h in
      after p.0 p.1 kept elsewhere c.held
    where
      l : Lease
      l = record { key = lock_key sha256_hex feed_url; owner = c.owner; serial = c.next }

      after :
          (w : Write) (t' : Table)
          → Holds k a until t'
          → (w ≡ written → str_eq (lock_key sha256_hex feed_url) k ≡ false)
          → (held : Option (List Lease))
          → Holds k a until (after_put on_delete l w (record c { held = held }) t').1.1
      after (failed e) t' q other held = q
      after condition_failed t' q other held = q
      after written t' q other none = delete-Holds k a until on_delete l t' (λ e. other refl) q
      after written t' q other (some ls) = q

  release-Holds :
      (k a : Str) (until : ℕ) (fault : Option Err) (l : Lease) (held : Option (List Lease))
      (c : Coordinator) (t : Table)
      → l.owner ≢ a
      → Holds k a until t
      → Holds k a until (release_held fault l held c t).1.1
  release-Holds k a until fault l none c t o h = h
  release-Holds k a until fault l (some ls) c t o h = elim (Bool-cases (is_held l.serial ls)) [
    | inl e ↦ rw e (delete-Holds k a until fault l t (λ q. absurd (o q)) h)
    | inr e ↦ rw e h
  ]

  close-Holds :
      (k a : Str) (until : ℕ) (faults : ℕ → Option Err) (held : Option (List Lease))
      (c : Coordinator) (t : Table)
      → HeldByOthers a held
      → Holds k a until t
      → Holds k a until (close_held faults held c t).1
  close-Holds k a until faults none c t o h = h
  close-Holds k a until faults (some ls) c t o h = delete_all-Holds k a until faults ls t o h

  Step-Holds :
      {a : Str} {until : ℕ} {t u : Table} (k : Str)
      → Step a until t u
      → Holds k a until t
      → Holds k a until u
  unfolding release close
  Step-Holds {a} {until} k (acquires fault on_delete feed_url now c t le) h =
      acquire-Holds k a until fault on_delete feed_url now c t le h
  Step-Holds {a} {until} k (releases fault l c t o) h =
      release-Holds k a until fault l c.held c t o h
  Step-Holds {a} {until} k (closes faults c t o) h = close-Holds k a until faults c.held c t o h

  pub Steps-Holds :
      {a : Str} {until : ℕ} {t u : Table} (k : Str)
      → Steps a until t u
      → Holds k a until t
      → Holds k a until u
  Steps-Holds k stop h = h
  Steps-Holds k (step s ss) h = Steps-Holds k ss (Step-Holds k s h)
