-- ===== src/Cosmos/Fresh.antt =====
-- The etags that are in use in any run of any coordinators are among those that the server has given
-- out (internal/coord/cosmosdb).
use rss2msg.Prelude.{
  ℕ, ◌<◌, ◌≤◌, ◌≡◌, ◌∙◌, refl, sym, Str, not, Option, none, some, List, [], ◌∷◌, All, arith, str_eq,
  Bool-cases, inl, inr,
}
use rss2msg.Prelude.Map.{lookup, lookup-insert, lookup-filter_keys}
use rss2msg.Cosmos.Server.{
  LeaseDoc, Container, Failure, Reply, answer, refused, put, create_if, create_item, refusal,
  replace_if, replace_item, delete_if, delete_item, is_status, lost_race,
}
use rss2msg.Cosmos.Leases.{
  conditional_delete, Lease, Coordinator, after_create, after_replace, is_held, release_held,
  delete_all, close_held,
}
use rss2msg.Cosmos.Steps.{Pending}

abbrev pub DocsFresh : Container → Type 0
DocsFresh t = (k : Str) (d : LeaseDoc) → lookup k t.docs ≡ some d → d.etag < t.next_etag

abbrev pub PendingFresh : Pending → Container → Type 0
PendingFresh ps t = All (λ p. p.1 < t.next_etag) ps

-- A step of the server that only gives out etags.
abbrev pub Advances : Container → Container → Type 0
Advances t u = (t.next_etag ≤ u.next_etag) × (DocsFresh t → DocsFresh u)

pub same-Advances : (t : Container) → Advances t t
same-Advances t = (ground arith, λ h. h)

pub trans-Advances : (t u v : Container) → Advances t u → Advances u v → Advances t v
trans-Advances t u v a b =
    let more : t.next_etag ≤ v.next_etag = ground (arith, a.0, b.0) in (more, λ h. b.1 (a.1 h))

put-Advances : (key owner : Str) (expiry : ℕ) (t : Container) → Advances t (put key owner expiry t)
unfolding put
put-Advances key owner expiry t = (ground arith, fresh)
  where
    written : LeaseDoc
    written = record { owner = owner; lease_expiry = expiry; etag = t.next_etag }

    fresh : DocsFresh t → DocsFresh (put key owner expiry t)
    fresh h k d there = elim (Bool-cases (str_eq key k)) [
      | inl e ↦
          let same : some written ≡ some d =
            sym (lookup-insert key k written t.docs ∙ rw e refl) ∙ there in
          let it : written ≡ d = cc in rw (← it) (ground arith)
      | inr e ↦
          let old = h k d (sym (lookup-insert key k written t.docs ∙ rw e refl) ∙ there) in
          ground (arith, old)
    ]

pub create-Advances :
    (fault : Option Failure) (key owner : Str) (expiry : ℕ) (t : Container)
    → Advances t (create_item fault key owner expiry t).1
unfolding create_item
create-Advances (some f) key owner expiry t = same-Advances t
create-Advances none key owner expiry t = split (lookup key t.docs)
  where
    split : (x : Option LeaseDoc) → Advances t (create_if x key owner expiry t).1
    split none = put-Advances key owner expiry t
    split (some d) = same-Advances t

pub replace-Advances :
    (fault : Option Failure) (etag : ℕ) (key owner : Str) (expiry : ℕ) (t : Container)
    → Advances t (replace_item fault etag key owner expiry t).1
unfolding replace_item
replace-Advances (some f) etag key owner expiry t = same-Advances t
replace-Advances none etag key owner expiry t = split (refusal etag (lookup key t.docs))
  where
    split : (x : Option ℕ) → Advances t (replace_if x key owner expiry t).1
    split none = put-Advances key owner expiry t
    split (some n) = same-Advances t

delete-Advances :
    (fault : Option Failure) (l : Lease) (t : Container)
    → Advances t (conditional_delete fault l t).1
unfolding conditional_delete delete_item
delete-Advances (some f) l t = same-Advances t
delete-Advances none l t = split (refusal l.etag (lookup l.key t.docs))
  where
    kept :
        (k : Str) (d : LeaseDoc)
        → lookup k (delete_if none l.key t).1.docs ≡ some d
        → lookup k t.docs ≡ some d
    kept k d there = elim (Bool-cases (str_eq k l.key)) [
      | inl e ↦
          let gone = lookup-filter_keys (λ j. not (str_eq j l.key)) k t.docs in
          absurd (cc (there, rw e at gone))
      | inr e ↦
          let still = lookup-filter_keys (λ j. not (str_eq j l.key)) k t.docs in
          cc (there, rw e at still)
    ]

    split : (x : Option ℕ) → Advances t (delete_if x l.key t).1
    split none = (ground arith, λ h k d there. h k d (kept k d there))
    split (some n) = same-Advances t

delete_all-Advances :
    (faults : ℕ → Option Failure) (ls : List Lease) (t : Container)
    → Advances t (delete_all faults ls t)
unfolding delete_all
delete_all-Advances faults [] t = same-Advances t
delete_all-Advances faults (l ∷ ls) t =
    trans-Advances t _ _ (delete-Advances (faults l.etag) l t) (delete_all-Advances faults ls _)

pub release-Advances :
    (fault : Option Failure) (l : Lease) (held : Option (List Lease)) (c : Coordinator)
    (t : Container)
    → Advances t (release_held fault l held c t).1.1
release-Advances fault l none c t = same-Advances t
release-Advances fault l (some ls) c t = elim (Bool-cases (is_held l.etag ls)) [
  | inl e ↦ rw e (delete-Advances fault l t)
  | inr e ↦ rw e (same-Advances t)
]

pub close-Advances :
    (faults : ℕ → Option Failure) (held : Option (List Lease)) (c : Coordinator) (t : Container)
    → Advances t (close_held faults held c t).1
close-Advances faults none c t = same-Advances t
close-Advances faults (some ls) c t = delete_all-Advances faults ls t

pub after_create-Advances :
    (on_delete : Option Failure) (key : Str) (r : Reply ℕ) (held : Option (List Lease))
    (c : Coordinator) (t : Container)
    → Advances t (after_create on_delete key r (record c { held = held }) t).1.1
after_create-Advances on_delete key (refused f) held c t = elim (Bool-cases (is_status f 409)) [
  | inl e ↦ rw e (same-Advances t)
  | inr e ↦ rw e (same-Advances t)
]
after_create-Advances on_delete key (answer n) none c t = delete-Advances on_delete _ t
after_create-Advances on_delete key (answer n) (some ls) c t = same-Advances t

pub after_replace-Advances :
    (on_delete : Option Failure) (key : Str) (r : Reply ℕ) (held : Option (List Lease))
    (c : Coordinator) (t : Container)
    → Advances t (after_replace on_delete key r (record c { held = held }) t).1.1
after_replace-Advances on_delete key (refused f) held c t = elim (Bool-cases (lost_race f)) [
  | inl e ↦ rw e (same-Advances t)
  | inr e ↦ rw e (same-Advances t)
]
after_replace-Advances on_delete key (answer n) none c t = delete-Advances on_delete _ t
after_replace-Advances on_delete key (answer n) (some ls) c t = same-Advances t
