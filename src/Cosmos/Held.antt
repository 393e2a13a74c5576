-- ===== src/Cosmos/Held.antt =====
-- What leaves the document of a held lease in place (internal/coord/cosmosdb).
use rss2msg.Prelude.{
  ℕ, ◌≡◌, ◌≢◌, ◌∙◌, refl, ap, sym, Str, not, Option, none, some, List, [], ◌∷◌, All, arith, ◌==◌,
  str_eq, Bool-cases, inl, inr,
}
use rss2msg.Prelude.Map.{lookup, lookup-insert, lookup-filter_keys, str_eq-false}
use rss2msg.Cosmos.Server.{
  LeaseDoc, Container, Failure, answer, put, create_if, create_item, refusal, replace_if,
  replace_item, delete_if, delete_item,
}
use rss2msg.Cosmos.Leases.{Lease, conditional_delete, delete_all}

-- The document of a key is `d`, in the version of its etag.
abbrev pub Holds : Str → LeaseDoc → Container → Type 0
Holds k d t = lookup k t.docs ≡ some d

-- A key and an etag do not name that version.
abbrev pub NamesOther : Str → LeaseDoc → Str → ℕ → Type 0
NamesOther k d key etag = key ≡ k → etag ≢ d.etag

put-Holds :
    (k : Str) (d : LeaseDoc) (key owner : Str) (expiry : ℕ) (t : Container)
    → key ≢ k
    → Holds k d t
    → Holds k d (put key owner expiry t)
unfolding put
put-Holds k d key owner expiry t ne h =
    lookup-insert key k (record { owner = owner; lease_expiry = expiry; etag = t.next_etag }) t.docs
    ∙ rw (str_eq-false key k ne) h

-- A document is created under another key only.
pub create-Holds :
    (k : Str) (d : LeaseDoc) (fault : Option Failure) (key owner : Str) (expiry : ℕ) (t : Container)
    → Holds k d t
    → Holds k d (create_item fault key owner expiry t).1
      × ((n : ℕ) → (create_item fault key owner expiry t).0 ≡ answer n → key ≢ k)
unfolding create_item
create-Holds k d (some f) key owner expiry t h = (h, λ n q. absurd (cc))
create-Holds k d none key owner expiry t h = split (lookup key t.docs) refl
  where
    split :
        (x : Option LeaseDoc)
        → lookup key t.docs ≡ x
        → Holds k d (create_if x key owner expiry t).1
          × ((n : ℕ) → (create_if x key owner expiry t).0 ≡ answer n → key ≢ k)
    split (some x) e = (h, λ n q. absurd (cc))
    split none e =
        let ne : key ≢ k = λ same.
          let there : lookup key t.docs ≡ some d = ap (λ j. lookup j t.docs) same ∙ h in cc in
        (put-Holds k d key owner expiry t ne h, λ n q. ne)

refusal-none : (etag : ℕ) (d : LeaseDoc) → refusal etag (some d) ≡ none → etag ≡ d.etag
refusal-none etag d h = elim (Bool-cases (d.etag == etag)) [
  | inl p ↦ ground (arith, p)
  | inr p ↦ absurd (cc (rw p at h))
]

-- A write that is not refused is under another key, unless it names the version.
other_key :
    (k : Str) (d : LeaseDoc) (key : Str) (etag : ℕ) (t : Container)
    → NamesOther k d key etag
    → Holds k d t
    → refusal etag (lookup key t.docs) ≡ none
    → key ≢ k
other_key k d key etag t other h e same =
    other same
      (refusal-none etag d (sym (ap (refusal etag) (ap (λ j. lookup j t.docs) same ∙ h)) ∙ e))

pub replace-Holds :
    (k : Str) (d : LeaseDoc) (fault : Option Failure) (etag : ℕ) (key owner : Str) (expiry : ℕ)
    (t : Container)
    → NamesOther k d key etag
    → Holds k d t
    → Holds k d (replace_item fault etag key owner expiry t).1
      × ((n : ℕ) → (replace_item fault etag key owner expiry t).0 ≡ answer n → key ≢ k)
unfolding replace_item
replace-Holds k d (some f) etag key owner expiry t other h = (h, λ n q. absurd (cc))
replace-Holds k d none etag key owner expiry t other h =
    split (refusal etag (lookup key t.docs)) refl
  where
    split :
        (x : Option ℕ)
        → refusal etag (lookup key t.docs) ≡ x
        → Holds k d (replace_if x key owner expiry t).1
          × ((n : ℕ) → (replace_if x key owner expiry t).0 ≡ answer n → key ≢ k)
    split (some x) e = (h, λ n q. absurd (cc))
    split none e =
        let ne = other_key k d key etag t other h e in
        (put-Holds k d key owner expiry t ne h, λ n q. ne)

pub delete-Holds :
    (k : Str) (d : LeaseDoc) (fault : Option Failure) (l : Lease) (t : Container)
    → NamesOther k d l.key l.etag
    → Holds k d t
    → Holds k d (conditional_delete fault l t).1
unfolding conditional_delete delete_item
delete-Holds k d (some f) l t other h = h
delete-Holds k d none l t other h = split (refusal l.etag (lookup l.key t.docs)) refl
  where
    split :
        (x : Option ℕ)
        → refusal l.etag (lookup l.key t.docs) ≡ x
        → Holds k d (delete_if x l.key t).1
    split (some x) e = h
    split none e =
        let ne = other_key k d l.key l.etag t other h e in
        lookup-filter_keys (λ j. not (str_eq j l.key)) k t.docs
        ∙ rw (str_eq-false k l.key (λ same. ne (sym same))) h

pub delete_all-Holds :
    (k : Str) (d : LeaseDoc) (faults : ℕ → Option Failure) (ls : List Lease) (t : Container)
    → All (λ l. NamesOther k d l.key l.etag) ls
    → Holds k d t
    → Holds k d (delete_all faults ls t)
unfolding delete_all
delete_all-Holds k d faults [] t other h = h
delete_all-Holds k d faults (l ∷ ls) t other h =
    delete_all-Holds k d faults ls _ other.1 (delete-Holds k d (faults l.etag) l t other.0 h)
