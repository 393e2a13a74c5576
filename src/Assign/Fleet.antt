-- ===== src/Assign/Fleet.antt =====
-- What the instances of a fleet rely on in internal/assign: agreement, small churn, and a partition
-- of the feeds.
use rss2msg.Prelude.{
  ◌↔◌, ◌≢◌, ℕ, ◌≡◌, refl, sym, ◌∙◌, Str, true, List, [], ◌∷◌, inl, inr, Option, none, some, Memᴰ,
  arith, str_eq_refl, str_eq_iff, eq_of_str_eq, Bool-cases, if◌then◌else◌, ap,
}
use rss2msg.Assign.{in_set, owner, is_owner, owned_loop, owned}
use rss2msg.Assign.Owner.{outranks, IsTop, IsTop-unique, IsTop-cons, owner-IsTop, owner_iff-IsTop}

in_set_of_mem : (self : Str) (ms : List Str) → Memᴰ self ms → in_set self ms ≡ true
unfolding in_set
in_set_of_mem self [] m = elim m [ ]
in_set_of_mem self (x ∷ ms) (Memᴰ.head e) = ground (arith, str_eq_refl x, str_eq_iff x self)
in_set_of_mem self (x ∷ ms) (Memᴰ.tail m) = ground (arith, in_set_of_mem self ms m)

module _ (sum64 : Str → ℕ) where
  -- Two instances that see the same members, in whatever order and however often each is listed,
  -- compute the same owner of every feed.
  pub owner_agree :
      (feed_url : Str) (ms ns : List Str)
      → ((m : Str) → Memᴰ m ms → Memᴰ m ns)
      → ((m : Str) → Memᴰ m ns → Memᴰ m ms)
      → owner sum64 feed_url ms ≡ owner sum64 feed_url ns
  owner_agree feed_url [] [] to from = refl
  owner_agree feed_url [] (n ∷ ns) to from = absurd (elim (from n (Memᴰ.head refl)) [ ])
  owner_agree feed_url (m ∷ ms) [] to from = absurd (elim (to m (Memᴰ.head refl)) [ ])
  owner_agree feed_url (m ∷ ms) (n ∷ ns) to from =
      let (a, ea, ta) = owner-IsTop sum64 feed_url m ms in
      let (b, eb, tb) = owner-IsTop sum64 feed_url n ns in
      ea ∙ ap some (IsTop-unique sum64 feed_url to from ta tb) ∙ sym eb

  -- When a member joins, a feed keeps its owner, unless the new member outranks that owner: then,
  -- and only then, it moves, and to the new member.
  pub owner_join :
      (feed_url new o : Str) (ms : List Str)
      → owner sum64 feed_url ms ≡ some o
      → owner sum64 feed_url (new ∷ ms)
        ≡ (if outranks sum64 feed_url new o then some new else some o)
  owner_join feed_url new o ms h = elim (Bool-cases (outranks sum64 feed_url new o)) [
    | inl e ↦ rw e (join (rw e at top))
    | inr e ↦ rw e (join (rw e at top))
  ]
    where
      top : IsTop sum64 feed_url (new ∷ ms) (if outranks sum64 feed_url new o then new else o)
      top = IsTop-cons sum64 feed_url new o ((owner_iff-IsTop sum64 feed_url ms o).0 h)

      join :
          {p : Str} → IsTop sum64 feed_url (new ∷ ms) p → owner sum64 feed_url (new ∷ ms) ≡ some p
      join {p} t = (owner_iff-IsTop sum64 feed_url (new ∷ ms) p).1 t

  -- A member that leaves and did not own the feed leaves its owner in place.
  owner_leave :
      (feed_url gone o : Str) (ms : List Str)
      → owner sum64 feed_url (gone ∷ ms) ≡ some o
      → gone ≢ o
      → owner sum64 feed_url ms ≡ some o
  owner_leave feed_url gone o ms h ne =
      (owner_iff-IsTop sum64 feed_url ms o).1
        (record { member = stays t.member; unbeaten = λ x m. t.unbeaten x (Memᴰ.tail m) })
    where
      t : IsTop sum64 feed_url (gone ∷ ms) o
      t = (owner_iff-IsTop sum64 feed_url (gone ∷ ms) o).0 h

      stays : Memᴰ o (gone ∷ ms) → Memᴰ o ms
      stays (Memᴰ.head e) = absurd (ne (sym e))
      stays (Memᴰ.tail m) = m

  mem-owned_loop :
      (self f : Str) (feeds ms : List Str)
      → Memᴰ f feeds
      → owner sum64 f ms ≡ some self
      → Memᴰ f (owned_loop sum64 self feeds ms)
  unfolding owned_loop
  mem-owned_loop self f [] ms m h = elim m [ ]
  mem-owned_loop self f (g ∷ fs) ms (Memᴰ.head e) h = rw (← e, h, str_eq_refl self) (Memᴰ.head refl)
  mem-owned_loop self f (g ∷ fs) ms (Memᴰ.tail m) h =
      elim (Bool-cases (is_owner self (owner sum64 g ms))) [
        | inl e ↦ rw e (Memᴰ.tail (mem-owned_loop self f fs ms m h))
        | inr e ↦ rw e (mem-owned_loop self f fs ms m h)
      ]

  owner_of_is_owner : (self : Str) (o : Option Str) → is_owner self o ≡ true → o ≡ some self
  owner_of_is_owner self none h = cc
  owner_of_is_owner self (some o) h = ap some (eq_of_str_eq o self h)

  owner_of_mem-owned_loop :
      (self f : Str) (feeds ms : List Str)
      → Memᴰ f (owned_loop sum64 self feeds ms)
      → (owner sum64 f ms ≡ some self) × Memᴰ f feeds
  unfolding owned_loop
  owner_of_mem-owned_loop self f [] ms m = elim m [ ]
  owner_of_mem-owned_loop self f (g ∷ fs) ms m =
      elim (Bool-cases (is_owner self (owner sum64 g ms))) [
        | inl e ↦ first e (owner_of_mem-owned_loop self f fs ms) (rw e at m)
        | inr e ↦ let (h, k) = owner_of_mem-owned_loop self f fs ms (rw e at m) in (h, Memᴰ.tail k)
      ]
    where
      first :
          is_owner self (owner sum64 g ms) ≡ true
          → (Memᴰ f (owned_loop sum64 self fs ms) → (owner sum64 f ms ≡ some self) × Memᴰ f fs)
          → Memᴰ f (g ∷ owned_loop sum64 self fs ms)
          → (owner sum64 f ms ≡ some self) × Memᴰ f (g ∷ fs)
      first e ih (Memᴰ.head q) = (rw q (owner_of_is_owner self (owner sum64 g ms) e), Memᴰ.head q)
      first e ih (Memᴰ.tail k) = let (h, l) = ih k in (h, Memᴰ.tail l)

  -- Every listed feed is in the owned set of some member of a non-empty fleet.
  pub owned_cover :
      (f m : Str) (feeds ms : List Str)
      → Memᴰ f feeds
      → (o : Str) × Memᴰ o (m ∷ ms) × Memᴰ f (owned sum64 o feeds (m ∷ ms))
  unfolding owned
  owned_cover f m feeds ms h =
      let (o, e, t) = owner-IsTop sum64 f m ms in
      (o, t.member, rw (in_set_of_mem o (m ∷ ms) t.member) (mem-owned_loop o f feeds (m ∷ ms) h e))

  owner_of_mem-owned :
      (self f : Str) (feeds ms : List Str)
      → Memᴰ f (owned sum64 self feeds ms)
      → owner sum64 f ms ≡ some self
  unfolding owned
  owner_of_mem-owned self f feeds ms k = elim (Bool-cases (in_set self ms)) [
    | inl c ↦ (owner_of_mem-owned_loop self f feeds ms (rw c at k)).0
    | inr c ↦ let n : Memᴰ f [] = rw c at k in elim n [ ]
  ]

  -- No feed is in the owned sets of two instances that see the same members.
  owned_disjoint :
      (self peer f : Str) (feeds ms : List Str)
      → Memᴰ f (owned sum64 self feeds ms)
      → Memᴰ f (owned sum64 peer feeds ms)
      → self ≡ peer
  owned_disjoint self peer f feeds ms h k =
      cc (owner_of_mem-owned self f feeds ms h, owner_of_mem-owned peer f feeds ms k)

  -- What an instance owns among the members it sees.
  pub mem-owned :
      (self f : Str) (feeds ms : List Str)
      → Memᴰ f (owned sum64 self feeds ms) ↔ ((owner sum64 f ms ≡ some self) × Memᴰ f feeds)
  unfolding owned
  mem-owned self f feeds ms = (to, from)
    where
      to : Memᴰ f (owned sum64 self feeds ms) → (owner sum64 f ms ≡ some self) × Memᴰ f feeds
      to k = elim (Bool-cases (in_set self ms)) [
        | inl c ↦ owner_of_mem-owned_loop self f feeds ms (rw c at k)
        | inr c ↦ let n : Memᴰ f [] = rw c at k in elim n [ ]
      ]

      from : (owner sum64 f ms ≡ some self) × Memᴰ f feeds → Memᴰ f (owned sum64 self feeds ms)
      from (h, k) =
          let t = (owner_iff-IsTop sum64 f ms self).0 h in
          rw (in_set_of_mem self ms t.member) (mem-owned_loop self f feeds ms k h)
