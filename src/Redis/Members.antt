-- ===== src/Redis/Members.antt =====
-- Which instances a heartbeat lists (internal/coord/redis/membership.go).
use rss2msg.Prelude.{
  ℕ, ◌+◌, ◌≡◌, ◌≢◌, refl, ◌∙◌, ap, sym, Str, lit, Bool, true, false, not, ◌||◌, Option, none, some,
  List, [], ◌∷◌, Memᴰ, arith, ltb, str_eq, str_eq_iff, str_eq_of_eq, ◌↔◌, ◌⊎◌, if◌then◌else◌,
  Bool-cases, inl, inr,
}
use rss2msg.Prelude.Map.{
  lookup, insert, filter_keys, DistinctKeys, insert-DistinctKeys, lookup-insert, lookup-filter_keys,
}
use rss2msg.Errors.{ok}
use rss2msg.HttpAuth.{cut_prefix}
use rss2msg.HttpAuth.Accepts.{cut_prefix-append, cut_prefix-some, prefix_inj}
use rss2msg.Redis.{Entry, Db, live, is_free}
use rss2msg.Redis.Membership.{
  member_key_prefix, member_key, set_member, if_member, scan, heartbeat, deregister, Mode, single,
  sentinel, cluster, shows,
}

-- The key of an instance is there, and not expired.
abbrev pub Alive : ℕ → Str → Db → Type 0
Alive now id db = (e : Entry) × (lookup (member_key id) db ≡ some e) × (ltb now e.expires_at ≡ true)

if_member-tail :
    {id : Str} (gone : Bool) (o : Option Str) (ids : List Str)
    → Memᴰ id ids
    → Memᴰ id (if_member gone o ids)
if_member-tail gone none ids m = m
if_member-tail true (some x) ids m = m
if_member-tail false (some x) ids m = Memᴰ.tail m

if_member-inv :
    {id : Str} (gone : Bool) (o : Option Str) (ids : List Str)
    → Memᴰ id (if_member gone o ids)
    → ((gone ≡ false) × (o ≡ some id)) ⊎ Memᴰ id ids
if_member-inv gone none ids m = inr m
if_member-inv true (some x) ids m = inr m
if_member-inv false (some x) ids (Memᴰ.head e) = inl (refl, rw e refl)
if_member-inv false (some x) ids (Memᴰ.tail m) = inr m

shown_iff :
    (now : ℕ) (e : Entry) → (is_free (live now (some e)) ≡ false) ↔ (ltb now e.expires_at ≡ true)
shown_iff now e = elim (Bool-cases (ltb now e.expires_at)) [
  | inl q ↦ rw q (λ h. refl, λ h. refl)
  | inr q ↦ rw q (λ h. absurd (cc), λ h. absurd (cc))
]

Alive-scan :
    (shown : Str → Bool) (now : ℕ) (id : Str) (db : Db)
    → shown (member_key id) ≡ true
    → Alive now id db
    → Memᴰ id (scan shown now db)
unfolding scan lookup
Alive-scan shown now id [] seen (e, h, on) = absurd (cc)
Alive-scan shown now id ((k, x) ∷ db) seen (e, h, on) =
    elim (Bool-cases (str_eq k (member_key id))) [
      | inl q ↦
          let same = (str_eq_iff k (member_key id)).0 q in
          let cut : cut_prefix member_key_prefix k ≡ some id =
            ap (cut_prefix member_key_prefix) same ∙ cut_prefix-append member_key_prefix id in
          let entry : some x ≡ some e = rw q at h in
          let listed : (not (shown k) || is_free (live now (some x))) ≡ false =
            rw (ap shown same ∙ seen)
              (ap (λ o. is_free (live now o)) entry ∙ (shown_iff now e).1 on) in
          rw (cut, listed) (Memᴰ.head refl)
      | inr q ↦
          if_member-tail _ (cut_prefix member_key_prefix k) _
            (Alive-scan shown now id db seen (e, rw q at h, on))
    ]

listed_iff : (shown free : Bool) → ((not shown || free) ≡ false) ↔ ((shown ≡ true) × (free ≡ false))
listed_iff true free = (λ h. (refl, h), λ h. h.1)
listed_iff false free = (λ h. absurd (cc), λ h. absurd (cc))

scan-Alive :
    (shown : Str → Bool) (now : ℕ) (id : Str) (db : Db)
    → DistinctKeys db
    → Memᴰ id (scan shown now db)
    → (shown (member_key id) ≡ true) × Alive now id db
unfolding scan lookup
scan-Alive shown now id [] d m = elim m [ ]
scan-Alive shown now id ((k, x) ∷ db) d m =
    elim (if_member-inv (not (shown k) || is_free (live now (some x)))
      (cut_prefix member_key_prefix k) (scan shown now db) m) [
        | inl (listed, cut) ↦
            let same : k ≡ member_key id = cut_prefix-some member_key_prefix k id cut in
            let (seen, live_now) = (listed_iff (shown k) (is_free (live now (some x)))).0 listed in
            let alive : Alive now id ((k, x) ∷ db) =
              (x, rw (str_eq_of_eq k (member_key id) same) refl, (shown_iff now x).0 live_now) in
            (ap shown (sym same) ∙ seen, alive)
        | inr t ↦
            let (seen, (e, h, on)) = scan-Alive shown now id db d.1 t in
            let alive : Alive now id ((k, x) ∷ db) = (e, rw (elsewhere e h) h, on) in (seen, alive)
      ]
  where
    elsewhere : (e : Entry) → lookup (member_key id) db ≡ some e → str_eq k (member_key id) ≡ false
    elsewhere e h = elim (Bool-cases (str_eq k (member_key id))) [
      | inr q ↦ q
      | inl q ↦
          let absent = ap (λ j. lookup j db) (sym ((str_eq_iff k (member_key id)).0 q)) ∙ d.0 in
          absurd (cc (absent, h))
    ]

shows_iff :
    (mode : Mode) (visited : Str → Bool) (k : Str)
    → (shows mode visited k ≡ true) ↔ ((mode ≡ cluster) → visited k ≡ true)
shows_iff single visited k = (λ h e. absurd (cc), λ h. refl)
shows_iff sentinel visited k = (λ h e. absurd (cc), λ h. refl)
shows_iff cluster visited k = (λ h e. h, λ h. h refl)

set_member-Alive :
    (now : ℕ) (self : Str) (ttl : ℕ) (db : Db) (id : Str)
    → ltb 0 ttl ≡ true
    → Alive now id (set_member now self ttl db) ↔ ((id ≡ self) ⊎ Alive now id db)
unfolding set_member
set_member-Alive now self ttl db id positive =
    elim (Bool-cases (str_eq (member_key self) (member_key id))) [
      | inl q ↦
          let same =
            prefix_inj member_key_prefix self id
              ((str_eq_iff (member_key self) (member_key id)).0 q) in
          (λ h. inl (sym same), λ h. (new, found ∙ rw q refl, ground arith))
      | inr q ↦
          let kept : lookup (member_key id) (insert (member_key self) new db)
              ≡ lookup (member_key id) db =
            found ∙ rw q refl in
          (
            λ (e, h, on). inr (e, sym kept ∙ h, on),
            λ h. elim h [
              | inl e ↦
                  absurd
                    (cc (str_eq_of_eq (member_key self) (member_key id) (ap member_key (sym e)), q))
              | inr (e, k, on) ↦ (e, kept ∙ k, on)
            ],
          )
    ]
  where
    new : Entry
    new = record { value = lit "1"; expires_at = now + ttl }

    found :
        lookup (member_key id) (insert (member_key self) new db)
        ≡ (if str_eq (member_key self) (member_key id) then some new else lookup (member_key id) db)
    found = lookup-insert (member_key self) (member_key id) new db

-- A heartbeat that succeeds lists this instance and exactly the others whose key has not expired, of
-- those whose key the scan shows: every one, if the client is that of a single server or of a
-- sentinel, but those only on the nodes that the scan visits, if it is that of a cluster.
pub heartbeat_iff :
    (mode : Mode) (visited : Str → Bool) (now : ℕ) (self : Str) (ttl : ℕ) (db : Db)
    → ltb 0 ttl ≡ true
    → DistinctKeys db
    → (ids : List Str) × ((heartbeat mode visited none none now self ttl db).0 ≡ ok ids)
      × ((id : Str)
          → Memᴰ id ids ↔ (
              ((mode ≡ cluster) → visited (member_key id) ≡ true)
              × ((id ≡ self) ⊎ Alive now id db)))
unfolding heartbeat set_member
heartbeat_iff mode visited now self ttl db positive d =
    let db' = set_member now self ttl db in
    let d' = insert-DistinctKeys (member_key self) _ db d in
    let shown = shows mode visited in
    (
      scan shown now db',
      refl,
      λ id. (
        λ m.
            let (seen, alive) = scan-Alive shown now id db' d' m in
            (
              (shows_iff mode visited (member_key id)).0 seen,
              (set_member-Alive now self ttl db id positive).0 alive,
            ),
        λ h.
            Alive-scan shown now id db' ((shows_iff mode visited (member_key id)).1 h.0)
              ((set_member-Alive now self ttl db id positive).1 h.1),
      ),
    )

-- An instance that has deregistered is not alive, and the others are as before.
deregister_iff :
    (now : ℕ) (self : Str) (db : Db) (id : Str)
    → Alive now id (deregister none self db).1 ↔ ((id ≢ self) × Alive now id db)
unfolding deregister
deregister_iff now self db id = elim (Bool-cases (str_eq (member_key id) (member_key self))) [
  | inl q ↦
      let same =
        prefix_inj member_key_prefix id self ((str_eq_iff (member_key id) (member_key self)).0 q) in
      let gone : lookup (member_key id) db' ≡ none = left ∙ rw q refl in
      (λ (e, h, on). absurd (cc (gone, h)), λ h. absurd (h.0 same))
  | inr q ↦
      let kept : lookup (member_key id) db' ≡ lookup (member_key id) db = left ∙ rw q refl in
      (
        λ (e, h, on).
            let still : Alive now id db = (e, sym kept ∙ h, on) in
            (
              λ s.
                  absurd (cc (str_eq_of_eq (member_key id) (member_key self) (ap member_key s), q)),
              still,
            ),
        λ h. (h.1.0, kept ∙ h.1.1, h.1.2),
      )
]
  where
    db' : Db
    db' = filter_keys (λ k. not (str_eq k (member_key self))) db

    left : lookup (member_key id) db' ≡ (
        if not (str_eq (member_key id) (member_key self)) then lookup (member_key id) db else none)
    left = lookup-filter_keys (λ k. not (str_eq k (member_key self))) (member_key id) db
