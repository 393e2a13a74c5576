-- ===== src/Redis/Held.antt =====
-- What leaves a held key in place (internal/coord/redis).
use rss2msg.Prelude.{
  ℕ, ◌+◌, ◌<◌, ◌≡◌, ◌≢◌, refl, ◌∙◌, ap, sym, Str, Bool, true, false, not, Option, none, some, List,
  [], ◌∷◌, All, arith, ltb, str_eq, str_eq_iff, str_eq_refl, str_eq_of_eq, Bool-cases, inl, inr,
}
use rss2msg.Prelude.Map.{lookup, lookup-insert, lookup-filter_keys}
use rss2msg.Errors.{Err, ok}
use rss2msg.Redis.{
  Db, live, get, is_value, is_free, set_nx, renew_script, release_script, Lease, Coordinator,
  millis, cas_delete, renew, delete_all, renewed,
}

-- A key is the token's and does not expire before `until`.
abbrev pub Holds : Str → Str → ℕ → Db → Type 0
Holds k a until db = lookup k db ≡ some (record { value = a; expires_at = until })

live-held :
    (k a key : Str) (until now : ℕ) (db : Db)
    → now < until
    → Holds k a until db
    → key ≡ k
    → get now key db ≡ some a
live-held k a key until now db lt h e =
    ap (λ j. live now (lookup j db)) e ∙ ap (live now) h ∙ (ground arith)

pub set_nx-Holds :
    (k a : Str) (until : ℕ) (fault : Option Err) (now : ℕ) (key token : Str) (ttl : ℕ) (db : Db)
    → now < until
    → Holds k a until db
    → Holds k a until (set_nx fault now key token ttl db).1
      × ((set_nx fault now key token ttl db).0 ≡ ok true → str_eq key k ≡ false)
unfolding set_nx
set_nx-Holds k a until (some e) now key token ttl db lt h = (h, λ w. absurd (cc))
set_nx-Holds k a until none now key token ttl db lt h = elim (Bool-cases (str_eq key k)) [
  | inl e ↦
      let taken = live-held k a key until now db lt h ((str_eq_iff key k).0 e) in
      rw taken (h, λ w. absurd (cc))
  | inr e ↦ elim (Bool-cases (is_free (get now key db))) [
    | inl p ↦ rw p (lookup-insert key k _ db ∙ rw e h, λ w. e)
    | inr p ↦ rw p (h, λ w. absurd (cc))
  ]
]

owner :
    (token a : Str) (until now : ℕ)
    → is_value token (live now (some (record { value = a; expires_at = until }))) ≡ true
    → token ≡ a
owner token a until now h = elim (Bool-cases (ltb now until)) [
  | inl e ↦ sym ((str_eq_iff a token).0 (rw e at h))
  | inr e ↦ absurd (cc (rw e at h))
]

-- A script that finds its token under a key acts on a key of its own.
mismatch :
    (k a key token : Str) (until now : ℕ) (db : Db)
    → (token ≡ a → str_eq key k ≡ false)
    → Holds k a until db
    → is_value token (get now key db) ≡ true
    → str_eq key k ≡ false
mismatch k a key token until now db other h mine = elim (Bool-cases (str_eq key k)) [
  | inr e ↦ e
  | inl e ↦
      let same = (str_eq_iff key k).0 e in
      let at_key = ap (λ j. live now (lookup j db)) same ∙ ap (live now) h in
      other (owner token a until now (sym (ap (is_value token) at_key) ∙ mine))
]

pub renew_script-Holds :
    (k a : Str) (until now : ℕ) (key token : Str) (ttl : ℕ) (db : Db)
    → (token ≡ a → str_eq key k ≡ false)
    → Holds k a until db
    → Holds k a until (renew_script now key token ttl db).1
unfolding renew_script
renew_script-Holds k a until now key token ttl db other h =
    elim (Bool-cases (is_value token (get now key db))) [
      | inr p ↦ rw p h
      | inl p ↦
          let e = mismatch k a key token until now db other h p in
          rw p (lookup-insert key k _ db ∙ rw e h)
    ]

release_script-Holds :
    (k a : Str) (until now : ℕ) (key token : Str) (db : Db)
    → (token ≡ a → str_eq key k ≡ false)
    → Holds k a until db
    → Holds k a until (release_script now key token db).1
unfolding release_script
release_script-Holds k a until now key token db other h =
    elim (Bool-cases (is_value token (get now key db))) [
      | inr p ↦ rw p h
      | inl p ↦
          let e = mismatch k a key token until now db other h p in
          rw p (lookup-filter_keys (λ j. not (str_eq j key)) k db ∙ rw (flip e) h)
    ]
  where
    flip : str_eq key k ≡ false → not (str_eq k key) ≡ true
    flip e = elim (Bool-cases (str_eq k key)) [
      | inr q ↦ rw q refl
      | inl q ↦ absurd (cc (str_eq_of_eq key k (sym ((str_eq_iff k key).0 q)), e))
    ]

-- The holder's own extension, in time.
pub extend-Holds :
    (until now : ℕ) (c : Coordinator) (l : Lease) (db : Db)
    → now < until
    → Holds l.key l.token until db
    → ((renew none now c l db).0 ≡ renewed)
      × Holds l.key l.token (now + millis c.opts.lock_ttl) (renew none now c l db).1
unfolding renew renew_script
extend-Holds until now c l db lt h =
    let mine : is_value l.token (get now l.key db) ≡ true =
      ap (is_value l.token) (live-held l.key l.token l.key until now db lt h refl)
      ∙ str_eq_refl l.token in
    rw mine (refl, lookup-insert l.key l.key _ db ∙ rw (str_eq_refl l.key) refl)

pub cas_delete-Holds :
    (k a : Str) (until : ℕ) (fault : Option Err) (closed : Bool) (now : ℕ) (l : Lease) (db : Db)
    → (l.token ≡ a → str_eq l.key k ≡ false)
    → Holds k a until db
    → Holds k a until (cas_delete fault closed now l db)
unfolding cas_delete
cas_delete-Holds k a until fault true now l db other h = h
cas_delete-Holds k a until (some e) false now l db other h = h
cas_delete-Holds k a until none false now l db other h =
    release_script-Holds k a until now l.key l.token db other h

pub delete_all-Holds :
    (k a : Str) (until : ℕ) (faults : ℕ → Option Err) (now : ℕ) (ls : List Lease) (db : Db)
    → All (λ l. l.token ≢ a) ls
    → Holds k a until db
    → Holds k a until (delete_all faults now ls db)
unfolding delete_all
delete_all-Holds k a until faults now [] db o h = h
delete_all-Holds k a until faults now (l ∷ ls) db o h =
    delete_all-Holds k a until faults now ls _ o.1
      (cas_delete-Holds k a until (faults l.serial) false now l db (λ e. absurd (o.0 e)) h)
