-- ===== src/Model/Hash.antt =====
-- The digest input of `ContentHash` determines the normalised fields.
use mathlib.Core.List.{append-nil, append_assoc}
use rss2msg.Prelude.{
  sym, ◌∙◌, ℕ, zero, suc, ◌≡◌, ◌≢◌, refl, Str, List, [], ◌∷◌, ◌++◌, All, All-append, ◌⊎◌, inl, inr,
}
use rss2msg.Model.{Time, write_field, hash_input}
use rss2msg.Model.Space.{Lead, word, space, lead, flush, fields_loop, fields, join_words}

-- No byte of the string is NUL.
abbrev NoNul : Str → Type 0
NoNul s = All (λ x. x ≢ 0) s

flush-NoNul : (w : Str) (ws : List Str) → NoNul w → All NoNul ws → All NoNul (flush w ws)
flush-NoNul [] ws h k = k
flush-NoNul (x ∷ w) ws h k = (h, k)

Lead-cases : (l : Lead) → (l ≡ word) ⊎ ((k : ℕ) × (l ≡ space k))
Lead-cases word = inl refl
Lead-cases (space k) = inr (k, refl)

fields_loop-NoNul : (skip : ℕ) (w s : Str) → NoNul w → NoNul s → All NoNul (fields_loop skip w s)
unfolding fields_loop
fields_loop-NoNul zero w [] h k = flush-NoNul w [] h tt
fields_loop-NoNul (suc skip) w [] h k = flush-NoNul w [] h tt
fields_loop-NoNul (suc skip) w (x ∷ s) h k = fields_loop-NoNul skip w s h k.1
fields_loop-NoNul zero w (x ∷ s) h k = elim (Lead-cases (lead x s)) [
  | inl e ↦
      rw (e, fields_loop)
        (fields_loop-NoNul zero (w ++ x ∷ []) s (All-append (λ x. x ≢ 0) w (x ∷ []) h (k.0, tt))
          k.1)
  | inr (n, e) ↦
      rw (e, fields_loop) (flush-NoNul w (fields_loop n [] s) h (fields_loop-NoNul n [] s tt k.1))
]

join_words-NoNul : (ws : List Str) → All NoNul ws → NoNul (join_words ws)
unfolding join_words
join_words-NoNul [] h = tt
join_words-NoNul (w ∷ []) h = h.0
join_words-NoNul (w ∷ v ∷ ws) h =
    All-append (λ x. x ≢ 0) w (32 ∷ join_words (v ∷ ws)) h.0
      ((λ e. absurd (cc)), join_words-NoNul (v ∷ ws) h.1)

-- A NUL ends the first field, so what stands before and behind it is determined.
split_at_nul : (u v a b : Str) → NoNul u → NoNul v → u ++ (0 ∷ a) ≡ v ++ (0 ∷ b) → (u ≡ v) × (a ≡ b)
split_at_nul [] [] a b h k e = (refl, cc)
split_at_nul [] (y ∷ v) a b h k e = absurd (k.0 (cc))
split_at_nul (x ∷ u) [] a b h k e = absurd (h.0 (cc))
split_at_nul (x ∷ u) (y ∷ v) a b h k e = let (p, q) = split_at_nul u v a b h.1 k.1 (cc) in (cc, q)

-- The normal form under which `ContentHash` compares a field.
abbrev pub norm : Str → Str
norm s = join_words (fields s)

norm-NoNul : (s : Str) → NoNul s → NoNul (norm s)
unfolding fields
norm-NoNul s h = join_words-NoNul (fields s) (fields_loop-NoNul 0 [] s tt h)

write_field_inj :
    (s t a b : Str)
    → NoNul s
    → NoNul t
    → write_field s ++ a ≡ write_field t ++ b
    → (norm s ≡ norm t) × (a ≡ b)
unfolding write_field
write_field_inj s t a b h k e =
    split_at_nul (norm s) (norm t) a b (norm-NoNul s h) (norm-NoNul t k)
      (sym (append_assoc (norm s) (0 ∷ []) a) ∙ e ∙ append_assoc (norm t) (0 ∷ []) b)

last_field_inj : (s t : Str) → NoNul s → NoNul t → write_field s ≡ write_field t → norm s ≡ norm t
last_field_inj s t h k e = (write_field_inj s t [] [] h k (rw append-nil (rw append-nil e))).0

-- The four text fields of an item, and the instant of its update.
pub record Item : Type 0 where
  pub title : Str
  pub link : Str
  pub body : Str
  pub author : Str
  pub updated : Time

pub record HasNoNul (i : Item) : Type 0 where
  pub title : NoNul i.title
  pub link : NoNul i.link
  pub body : NoNul i.body
  pub author : NoNul i.author

module _ (rfc3339 : Time → Str) (printable : (t : Time) → NoNul (rfc3339 t)) where
  abbrev input_of : Item → Str
  input_of i = hash_input rfc3339 i.title i.link i.body i.author i.updated

  -- Items without NUL bytes feed the digest the same bytes only if each of their fields is the same
  -- up to white space, and the printed update is the same: no text moves from a field into the next.
  pub hash_input_inj :
      (i j : Item)
      → HasNoNul i
      → HasNoNul j
      → input_of i ≡ input_of j
      → (norm i.title ≡ norm j.title)
        × (norm i.link ≡ norm j.link)
        × (norm i.body ≡ norm j.body)
        × (norm i.author ≡ norm j.author)
        × (norm (rfc3339 i.updated) ≡ norm (rfc3339 j.updated))
  unfolding hash_input
  hash_input_inj i j h k e =
      let (a, e1) = write_field_inj i.title j.title _ _ h.title k.title e in
      let (b, e2) = write_field_inj i.link j.link _ _ h.link k.link e1 in
      let (c, e3) = write_field_inj i.body j.body _ _ h.body k.body e2 in
      let (d, e4) = write_field_inj i.author j.author _ _ h.author k.author e3 in
      (
        a,
        b,
        c,
        d,
        last_field_inj (rfc3339 i.updated) (rfc3339 j.updated) (printable _) (printable _) e4,
      )
