-- ===== src/Assign/Owner.antt =====
-- The owner that internal/assign computes is the top of the member set, whatever its order.
use rss2msg.Prelude.{
  ℕ, ◌≡◌, refl, Str, Bool, true, false, List, [], ◌∷◌, ◌&&◌, ◌||◌, ◌⊎◌, inl, inr, ◌∙◌, ap, ◌↔◌,
  none, some, Memᴰ, All, All-mem, All-intro, arith, ltb, ◌==◌, str_lt, str_lt_irrefl, str_lt_trans,
  str_lt_total, Bool-cases, if◌then◌else◌,
}
use rss2msg.Assign.{Best, score, owner_step, owner_loop, owner}

module _ (sum64 : Str → ℕ) (feed_url : Str) where
  -- `a` beats `b`: a larger score, or the same score and a larger identifier.
  unfoldable pub outranks : Str → Str → Bool
  outranks a b =
      let s = score sum64 a feed_url in
      let t = score sum64 b feed_url in ltb t s || s == t && str_lt b a

  outranks_irrefl : (a : Str) → outranks a a ≡ false
  unfolding outranks
  outranks_irrefl a = ground (arith, str_lt_irrefl a)

  outranks_trans : (a b c : Str) → outranks a b ≡ true → outranks b c ≡ true → outranks a c ≡ true
  unfolding outranks
  outranks_trans a b c h k = ground (arith, str_lt_trans c b a)

  outranks_total : (a b : Str) → outranks a b ≡ false → outranks b a ≡ false → a ≡ b
  unfolding outranks
  outranks_total a b h k = ground (arith, str_lt_total a b)

  outranks_asym : (a b : Str) → outranks a b ≡ true → outranks b a ≡ false
  unfolding outranks
  outranks_asym a b h = elim (Bool-cases (outranks b a)) [
    | inr e ↦ e
    | inl e ↦ cc (outranks_trans a b a h e, outranks_irrefl a)
  ]

  -- An independent description of the owner: a member that no member beats.
  pub record IsTop (members : List Str) (o : Str) : Type 0 where
    pub member : Memᴰ o members
    pub unbeaten : (m : Str) → Memᴰ m members → outranks m o ≡ false

  pub IsTop-unique :
      {ms ns : List Str} {a b : Str}
      → ((m : Str) → Memᴰ m ms → Memᴰ m ns)
      → ((m : Str) → Memᴰ m ns → Memᴰ m ms)
      → IsTop ms a
      → IsTop ns b
      → a ≡ b
  IsTop-unique {a = a} {b = b} to from s t =
      outranks_total a b (t.unbeaten a (to a s.member)) (s.unbeaten b (from b t.member))

  not-outranks_trans :
      (a b c : Str) → outranks a b ≡ false → outranks b c ≡ false → outranks a c ≡ false
  not-outranks_trans a b c h k = elim (Bool-cases (outranks a c)) [
    | inr e ↦ e
    | inl e ↦ elim (Bool-cases (outranks b a)) [
      | inl over ↦ cc (outranks_trans b a c over e)
      | inr level ↦ cc (outranks_total a b h level)
    ]
  ]

  -- What the loop keeps: a best that was found, with its own score.
  record Scored (b : Best) : Type 0 where
    found : b.found ≡ true
    scored : b.best_score ≡ score sum64 b.best feed_url

  owner_step-Scored : (b : Best) (m : Str) → Scored b → Scored (owner_step sum64 feed_url b m)
  unfolding owner_step
  owner_step-Scored b m h = ground arith

  best-owner_step :
      (b : Best) (m : Str)
      → Scored b
      → (owner_step sum64 feed_url b m).best ≡ (if outranks m b.best then m else b.best)
  unfolding owner_step outranks
  best-owner_step b m h = ground arith

  -- The better of two stands for both of them.
  IsTop-absorb :
      (a m : Str) (ms : List Str) {o : Str}
      → IsTop ((if outranks m a then m else a) ∷ ms) o
      → IsTop (a ∷ m ∷ ms) o
  IsTop-absorb a m ms {o} t = record {
    member = keep (outranks m a) t.member;
    unbeaten = λ x mem. beat (Bool-cases (outranks m a)) x mem;
  }
    where
      keep : (c : Bool) → Memᴰ o ((if c then m else a) ∷ ms) → Memᴰ o (a ∷ m ∷ ms)
      keep true mem = Memᴰ.tail mem
      keep false (Memᴰ.head e) = Memᴰ.head e
      keep false (Memᴰ.tail mem) = Memᴰ.tail (Memᴰ.tail mem)

      rest : (x : Str) → Memᴰ x ms → outranks x o ≡ false
      rest x mem = t.unbeaten x (Memᴰ.tail mem)

      winner : outranks (if outranks m a then m else a) o ≡ false
      winner = t.unbeaten _ (Memᴰ.head refl)

      first : (outranks m a ≡ true) ⊎ (outranks m a ≡ false) → outranks a o ≡ false
      first (inl e) = not-outranks_trans a m o (outranks_asym m a e) (rw e at winner)
      first (inr e) = rw e at winner

      second : (outranks m a ≡ true) ⊎ (outranks m a ≡ false) → outranks m o ≡ false
      second (inl e) = rw e at winner
      second (inr e) = not-outranks_trans m a o e (rw e at winner)

      beat :
          (outranks m a ≡ true) ⊎ (outranks m a ≡ false)
          → (x : Str) → Memᴰ x (a ∷ m ∷ ms)
          → outranks x o ≡ false
      beat c x (Memᴰ.head e) = rw e (first c)
      beat c x (Memᴰ.tail (Memᴰ.head e)) = rw e (second c)
      beat c x (Memᴰ.tail (Memᴰ.tail mem)) = rest x mem

  IsTop-singleton : (a : Str) → IsTop (a ∷ []) a
  IsTop-singleton a = record { member = Memᴰ.head refl; unbeaten = alone }
    where
      alone : (x : Str) → Memᴰ x (a ∷ []) → outranks x a ≡ false
      alone x (Memᴰ.head e) = rw e (outranks_irrefl a)
      alone x (Memᴰ.tail mem) = elim mem [ ]

  owner_loop-IsTop :
      (b : Best) (ms : List Str)
      → Scored b
      → ((owner_loop sum64 feed_url b ms).found ≡ true)
        × IsTop (b.best ∷ ms) (owner_loop sum64 feed_url b ms).best
  unfolding owner_loop
  owner_loop-IsTop b [] h = (h.found, IsTop-singleton b.best)
  owner_loop-IsTop b (m ∷ ms) h =
      let b' = owner_step sum64 feed_url b m in
      let (found, top) = owner_loop-IsTop b' ms (owner_step-Scored b m h) in
      (found, IsTop-absorb b.best m ms (rw (best-owner_step b m h) at top))

  -- Every non-empty member list has an owner, and it is the member that no member beats.
  pub owner-IsTop :
      (m : Str) (ms : List Str)
      → (o : Str) × (owner sum64 feed_url (m ∷ ms) ≡ some o) × IsTop (m ∷ ms) o
  unfolding owner owner_step
  owner-IsTop m ms =
      let b : Best = record { best = m; best_score = score sum64 m feed_url; found = true } in
      let (found, top) = owner_loop-IsTop b ms (record { found = refl; scored = refl }) in
      ((owner_loop sum64 feed_url b ms).best, rw found, top)

  owner-nil : owner sum64 feed_url [] ≡ none
  unfolding owner
  owner-nil = refl

  pub owner_iff-IsTop : (ms : List Str) (o : Str) → (owner sum64 feed_url ms ≡ some o) ↔ IsTop ms o
  owner_iff-IsTop [] o = ((λ h. cc owner-nil), (λ t. elim t.member [ ]))
  owner_iff-IsTop (m ∷ ms) o =
      let (a, ea, ta) = owner-IsTop m ms in
      (
        (λ h. let e : a ≡ o = cc in rw e at ta),
        (λ t. ea ∙ ap some (IsTop-unique (λ x mem. mem) (λ x mem. mem) ta t)),
      )

  -- The owner of a feed is exactly the listed member that no listed member outranks.
  pub owner_iff :
      (ms : List Str) (o : Str)
      → (owner sum64 feed_url ms ≡ some o) ↔ (Memᴰ o ms × All (λ m. outranks m o ≡ false) ms)
  owner_iff ms o = (
    (λ h.
        let t = (owner_iff-IsTop ms o).0 h in
        (t.member, All-intro (λ m. outranks m o ≡ false) ms t.unbeaten)),
    (λ t.
        (owner_iff-IsTop ms o).1
          (record { member = t.0; unbeaten = λ m. All-mem (λ m. outranks m o ≡ false) ms t.1 })),
  )

  -- A newcomer is the new top exactly if it beats the old one.
  pub IsTop-cons :
      (new o : Str) {ms : List Str}
      → IsTop ms o
      → IsTop (new ∷ ms) (if outranks new o then new else o)
  IsTop-cons new o {ms} t = split (Bool-cases (outranks new o))
    where
      wins : outranks new o ≡ true → (x : Str) → Memᴰ x (new ∷ ms) → outranks x new ≡ false
      wins e x (Memᴰ.head h) = rw h (outranks_irrefl new)
      wins e x (Memᴰ.tail h) = not-outranks_trans x o new (t.unbeaten x h) (outranks_asym new o e)

      loses : outranks new o ≡ false → (x : Str) → Memᴰ x (new ∷ ms) → outranks x o ≡ false
      loses e x (Memᴰ.head h) = rw h e
      loses e x (Memᴰ.tail h) = t.unbeaten x h

      split :
          (outranks new o ≡ true) ⊎ (outranks new o ≡ false)
          → IsTop (new ∷ ms) (if outranks new o then new else o)
      split (inl e) = rw e (record { member = Memᴰ.head refl; unbeaten = wins e })
      split (inr e) = rw e (record { member = Memᴰ.tail t.member; unbeaten = loses e })
