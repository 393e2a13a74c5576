-- ===== src/Ownership/Partition.antt =====
-- The feeds that the members of a fleet run (internal/scheduler/ownerprovider.go).
use mathlib.Core.List.{Permᴰ}
use rss2msg.Prelude.{
  str_eq_of_eq, str_lt_irrefl, str_lt_trans, str_lt_total, ℕ, ◌≡◌, refl, ◌∙◌, ap, sym, ◌↔◌, inl,
  inr, Str, Bool, true, false, not, ◌||◌, none, some, List, [], ◌∷◌, Memᴰ, arith, str_eq,
  str_eq_iff, str_eq_refl, str_lt, Bool-cases,
}
use rss2msg.Errors.{Err, Result, ok, err}
use rss2msg.Source.{FeedConfig}
use rss2msg.Assign.{owner, owned, in_set}
use rss2msg.Assign.Fleet.{owner_agree, mem-owned}
use rss2msg.Ownership.{
  OwnerProvider, insert_string, sort_strings, member_key, urls, keep_owned, heartbeat, owned_feeds,
}

mem-insert_string : (x s : Str) (ts : List Str) → Memᴰ x (insert_string s ts) ↔ Memᴰ x (s ∷ ts)
unfolding insert_string
mem-insert_string x s [] = (λ m. m, λ m. m)
mem-insert_string x s (t ∷ ts) = elim (Bool-cases (str_lt t s)) [
  | inr e ↦ rw e (λ m. m, λ m. m)
  | inl e ↦ rw e (to (mem-insert_string x s ts).0, from (mem-insert_string x s ts).1)
]
  where
    to :
        (Memᴰ x (insert_string s ts) → Memᴰ x (s ∷ ts))
        → Memᴰ x (t ∷ insert_string s ts)
        → Memᴰ x (s ∷ (t ∷ ts))
    to ih (Memᴰ.head q) = Memᴰ.tail (Memᴰ.head q)
    to ih (Memᴰ.tail m) = swap (ih m)
      where
        swap : Memᴰ x (s ∷ ts) → Memᴰ x (s ∷ (t ∷ ts))
        swap (Memᴰ.head q) = Memᴰ.head q
        swap (Memᴰ.tail n) = Memᴰ.tail (Memᴰ.tail n)

    from :
        (Memᴰ x (s ∷ ts) → Memᴰ x (insert_string s ts))
        → Memᴰ x (s ∷ (t ∷ ts))
        → Memᴰ x (t ∷ insert_string s ts)
    from ih (Memᴰ.head q) = Memᴰ.tail (ih (Memᴰ.head q))
    from ih (Memᴰ.tail (Memᴰ.head q)) = Memᴰ.head q
    from ih (Memᴰ.tail (Memᴰ.tail n)) = Memᴰ.tail (ih (Memᴰ.tail n))

mem-sort_strings : (x : Str) (ss : List Str) → Memᴰ x (sort_strings ss) ↔ Memᴰ x ss
unfolding sort_strings
mem-sort_strings x [] = (λ m. m, λ m. m)
mem-sort_strings x (s ∷ ss) =
    let (to, from) = mem-insert_string x s (sort_strings ss) in
    let (into, back) = mem-sort_strings x ss in (λ m. under into (to m), λ m. from (under back m))
  where
    under : {ps qs : List Str} → (Memᴰ x ps → Memᴰ x qs) → Memᴰ x (s ∷ ps) → Memᴰ x (s ∷ qs)
    under f (Memᴰ.head q) = Memᴰ.head q
    under f (Memᴰ.tail m) = Memᴰ.tail (f m)

insert_string_comm :
    (a b : Str) (ts : List Str)
    → insert_string a (insert_string b ts) ≡ insert_string b (insert_string a ts)
unfolding insert_string
insert_string_comm a b [] = ground (arith, str_lt_total a b, str_lt_trans a b a, str_lt_irrefl a)
insert_string_comm a b (t ∷ ts) = ground (
  arith,
  str_lt_total a b,
  str_lt_trans a b a,
  str_lt_irrefl a,
  str_lt_trans t a b,
  str_lt_trans t b a,
  insert_string_comm a b ts,
)

sort_strings-perm : {ms ns : List Str} → Permᴰ ms ns → sort_strings ms ≡ sort_strings ns
unfolding sort_strings
sort_strings-perm Permᴰ.nil = refl
sort_strings-perm (Permᴰ.cons e p) = cc (e, sort_strings-perm p)
sort_strings-perm (Permᴰ.swap {a} {b} {a'} {b'} {l} e f) =
    cc (e, f, insert_string_comm a b (sort_strings l))
sort_strings-perm (Permᴰ.trans p q) = sort_strings-perm p ∙ sort_strings-perm q

mem-urls : (fc : FeedConfig) (fcs : List FeedConfig) → Memᴰ fc fcs → Memᴰ fc.url (urls fcs)
unfolding urls
mem-urls fc [] m = elim m [ ]
mem-urls fc (g ∷ fcs) (Memᴰ.head q) = Memᴰ.head (ap (λ f. f.url) q)
mem-urls fc (g ∷ fcs) (Memᴰ.tail m) = Memᴰ.tail (mem-urls fc fcs m)

in_set_iff : (x : Str) (ss : List Str) → (in_set x ss ≡ true) ↔ Memᴰ x ss
unfolding in_set
in_set_iff x [] = (λ h. absurd (cc), λ m. elim m [ ])
in_set_iff x (s ∷ ss) = (
  λ h. elim (Bool-cases (str_eq s x)) [
    | inl e ↦ Memᴰ.head (sym ((str_eq_iff s x).0 e))
    | inr e ↦ Memᴰ.tail ((in_set_iff x ss).0 (rw e at h))
  ],
  from (in_set_iff x ss).1,
)
  where
    from : (Memᴰ x ss → in_set x ss ≡ true) → Memᴰ x (s ∷ ss) → in_set x (s ∷ ss) ≡ true
    from ih (Memᴰ.head q) = ground (arith, str_eq_of_eq s x (sym q))
    from ih (Memᴰ.tail m) = ground (arith, ih m)

mem-keep_owned :
    (fc : FeedConfig) (us : List Str) (fcs : List FeedConfig)
    → Memᴰ fc (keep_owned us fcs) ↔ (Memᴰ fc fcs × Memᴰ fc.url us)
unfolding keep_owned
mem-keep_owned fc us [] = (λ m. elim m [ ], λ h. elim h.0 [ ])
mem-keep_owned fc us (g ∷ fcs) =
    let (into, back) = mem-keep_owned fc us fcs in
    elim (Bool-cases (in_set g.url us)) [
      | inl e ↦ rw e (to e into, from back)
      | inr e ↦ rw e (λ m. let h = into m in (Memᴰ.tail h.0, h.1), behind e back)
    ]
  where
    Both : List FeedConfig → Type 0
    Both gs = Memᴰ fc gs × Memᴰ fc.url us

    to :
        in_set g.url us ≡ true
        → (Memᴰ fc (keep_owned us fcs) → Both fcs)
        → Memᴰ fc (g ∷ keep_owned us fcs)
        → Both (g ∷ fcs)
    to e ih (Memᴰ.head q) =
        (Memᴰ.head q, (in_set_iff fc.url us).0 (ap (λ f. in_set f.url us) q ∙ e))
    to e ih (Memᴰ.tail m) = let h = ih m in (Memᴰ.tail h.0, h.1)

    from :
        (Both fcs → Memᴰ fc (keep_owned us fcs)) → Both (g ∷ fcs) → Memᴰ fc (g ∷ keep_owned us fcs)
    from ih (Memᴰ.head q, u) = Memᴰ.head q
    from ih (Memᴰ.tail m, u) = Memᴰ.tail (ih (m, u))

    behind :
        in_set g.url us ≡ false
        → (Both fcs → Memᴰ fc (keep_owned us fcs))
        → Both (g ∷ fcs)
        → Memᴰ fc (keep_owned us fcs)
    behind e ih (Memᴰ.head q, u) =
        absurd (cc (sym (ap (λ f. in_set f.url us) q) ∙ (in_set_iff fc.url us).1 u, e))
    behind e ih (Memᴰ.tail m, u) = ih (m, u)

abbrev pub feeds_of : Result (List FeedConfig) → List FeedConfig
feeds_of (err e) = []
feeds_of (ok fcs) = fcs

module _ (sum64 : Str → ℕ) where
  -- After a heartbeat that the coordinator answers, an instance runs exactly the feeds that
  -- rendezvous hashing assigns to it among the live members, in whatever order the coordinator
  -- lists them: so instances that see the same members share the feeds out without overlap.
  pub heartbeat-owned_feeds :
      (o : OwnerProvider) (ms : List Str) (inner : Result (List FeedConfig)) (fcs : List FeedConfig)
      (fc : FeedConfig)
      → Memᴰ fc (feeds_of (owned_feeds sum64 (heartbeat sum64 (ok ms) inner o).1 (ok fcs)))
        ↔ (Memᴰ fc fcs × (owner sum64 fc.url ms ≡ some o.self))
  unfolding heartbeat owned_feeds
  heartbeat-owned_feeds o ms inner fcs fc = (to, from)
    where
      agree : owner sum64 fc.url (sort_strings ms) ≡ owner sum64 fc.url ms
      agree =
          owner_agree sum64 fc.url (sort_strings ms) ms (λ m. (mem-sort_strings m ms).0)
            (λ m. (mem-sort_strings m ms).1)

      us : List Str
      us = owned sum64 o.self (urls fcs) (sort_strings ms)

      to : Memᴰ fc (keep_owned us fcs) → Memᴰ fc fcs × (owner sum64 fc.url ms ≡ some o.self)
      to m =
          let (here, u) = (mem-keep_owned fc us fcs).0 m in
          (here, sym agree ∙ ((mem-owned sum64 o.self fc.url (urls fcs) (sort_strings ms)).0 u).0)

      from : Memᴰ fc fcs × (owner sum64 fc.url ms ≡ some o.self) → Memᴰ fc (keep_owned us fcs)
      from (m, h) = (mem-keep_owned fc us fcs).1 (
        m,
        (mem-owned sum64 o.self fc.url (urls fcs) (sort_strings ms)).1
            (agree ∙ h, mem-urls fc fcs m),
      )

  -- A heartbeat that the coordinator does not answer changes nothing: the instance goes on with the
  -- members and the feeds it had. One that finds the members of the heartbeat before, in whatever
  -- order, signals no change and reports no rebalance.
  pub heartbeat_static :
      (o : OwnerProvider) (e : Err) (inner : Result (List FeedConfig)) (ms ns : List Str)
      → Permᴰ ms ns
      → let o' = (heartbeat sum64 (ok ms) inner o).1 in
        ((heartbeat sum64 (err e) inner o').1 ≡ o')
        × ((heartbeat sum64 (ok ns) inner o').1 ≡ o')
        × ((heartbeat sum64 (ok ns) inner o').0.rebalance ≡ none)
  unfolding heartbeat
  heartbeat_static o e inner ms ns same =
      rw (← sort_strings-perm same, str_eq_refl (member_key (sort_strings ms)))
        (
          refl,
          ap
              (λ b. record o {
                members = sort_strings ms;
                last_key = member_key (sort_strings ms);
                pending = b;
              })
              (or_false (o.pending || not (str_eq (member_key (sort_strings ms)) o.last_key))),
          refl,
        )
    where
      or_false : (b : Bool) → (b || false) ≡ b
      or_false b = ground arith
