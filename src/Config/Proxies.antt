-- ===== src/Config/Proxies.antt =====
-- That the check on the proxies of a feed sink (internal/config/validate.go) agrees with the parser of
-- internal/sink/feed/proxy.go.
use rss2msg.Prelude.{
  ◌≡◌, refl, sym, ap, ◌∙◌, ◌↔◌, inl, inr, Str, lit, Bool, true, false, ◌||◌, ◌&&◌, not, Option,
  none, some, List, [], ◌∷◌, All, is_empty, is_none, str_eq, if◌then◌else◌, Bool-cases,
  Option-cases,
}
use rss2msg.Prelude.Bytes.{to_lower, has_byte}
use rss2msg.Prelude.Map.{lookup}
use rss2msg.Errors.{Err, Result, ok, err}
use rss2msg.Model.Space.{trim_space}
use rss2msg.Config.ProxyEntry.{EntryFault, unknown_entry, is_ok, validate_trusted_proxy_entry}
use rss2msg.FeedSink.Proxy.{
  preset_cidrs, add, add_preset, add_ip, add_entry, add_entries, to_set, parse_trusted_proxies,
}

or_false : (b : Bool) → b ≡ (b || false)
or_false true = refl
or_false false = refl

not-false : {b : Bool} → not b ≡ false → b ≡ true
not-false {b = true} h = refl
not-false {b = false} h = absurd (cc)

not-true : {b : Bool} → not b ≡ true → b ≡ false
not-true {b = true} h = absurd (cc)
not-true {b = false} h = refl

empty_nil : (s : Str) → is_empty s ≡ true → s ≡ []
empty_nil [] h = refl
empty_nil (c ∷ s) h = absurd (cc)

no_slash : ¬ (has_byte 47 [] ≡ true)
unfolding has_byte
no_slash h = absurd (cc)

nil_unnamed :
    (l : Str) → is_empty l ≡ true → (str_eq (lit "private") l || str_eq (lit "all") l) ≡ false
unfolding str_eq
nil_unnamed [] h = refl
nil_unnamed (c ∷ l) h = absurd (cc)

verdict :
    (c i r : Bool)
    → ((c || not i) && r)
      ≡ (is_none (if c then none else if i then some unknown_entry else none) && r)
verdict true i r = refl
verdict false true r = refl
verdict false false r = refl

both_iff : (a b : Bool) → ((a && b) ≡ true) ↔ ((a ≡ true) × (b ≡ true))
both_iff true b = (λ h. (refl, h), λ h. h.1)
both_iff false b = (λ h. absurd (cc), λ h. absurd (cc))

is_none_iff : (o : Option EntryFault) → (is_none o ≡ true) ↔ (o ≡ none)
is_none_iff none = (λ h. refl, λ h. refl)
is_none_iff (some f) = (λ h. absurd (cc), λ h. absurd (cc))

module _ {Ip Network : Type 0} (parse_ip : Str → Option Ip)
    (parse_cidr : Str → Result Network) where
  -- What package net documents: a network in CIDR notation has a slash and an address has none, the
  -- empty string is no address, and the networks of the named sets are well formed.
  pub record Documented : Type 0 where
    pub cidr_slash : (s : Str) → is_ok (parse_cidr s) ≡ true → has_byte 47 s ≡ true
    pub ip_no_slash : (s : Str) → is_none (parse_ip s) ≡ false → has_byte 47 s ≡ false
    pub ip_given : is_none (parse_ip []) ≡ true
    pub presets :
        (s : Str) (cidrs : List Str)
        → lookup s preset_cidrs ≡ some cidrs
        → All (λ c. is_ok (parse_cidr c) ≡ true) cidrs

  module _ (single : Ip → Network) (documented : Documented) where
    add-ok :
        (context : Err → Err) (r : Result Network) (rest : Result (List Network))
        → is_ok (add parse_ip parse_cidr single context r rest) ≡ (is_ok r && is_ok rest)
    add-ok context (ok n) (ok ns) = refl
    add-ok context (ok n) (err e) = refl
    add-ok context (err e) rest = refl

    add_ip-ok :
        (e : Str) (o : Option Ip) (rest : Result (List Network))
        → is_ok (add_ip parse_ip parse_cidr single e o rest) ≡ (not (is_none o) && is_ok rest)
    add_ip-ok e none rest = refl
    add_ip-ok e (some ip) (ok ns) = refl
    add_ip-ok e (some ip) (err x) = refl

    add_preset-ok :
        (e : Str) (cs : List Str) (rest : Result (List Network))
        → All (λ c. is_ok (parse_cidr c) ≡ true) cs
        → is_ok (add_preset parse_ip parse_cidr single e cs rest) ≡ is_ok rest
    unfolding add_preset
    add_preset-ok e [] rest h = refl
    add_preset-ok e (c ∷ cs) rest h =
        add-ok _ (parse_cidr c) (add_preset parse_ip parse_cidr single e cs rest)
        ∙ rw h.0 (add_preset-ok e cs rest h.1)

    plain_entry :
        (e : Str) (rest : Result (List Network))
        → is_ok (add_entry parse_ip parse_cidr single e none rest)
          ≡ ((is_ok (parse_cidr e) || not (is_none (parse_ip e))) && is_ok rest)
    plain_entry e rest = elim (Bool-cases (has_byte 47 e)) [
      | inl b ↦ rw b (
          add-ok _ (parse_cidr e) rest
          ∙ rw (no_ip b) (ap (λ x. x && is_ok rest) (or_false (is_ok (parse_cidr e)))))
      | inr b ↦ rw b (add_ip-ok e (parse_ip e) rest ∙ rw (no_cidr b) refl)
    ]
      where
        no_ip : has_byte 47 e ≡ true → is_none (parse_ip e) ≡ true
        no_ip b = elim (Bool-cases (is_none (parse_ip e))) [
          | inl q ↦ q
          | inr q ↦ absurd (cc (documented.ip_no_slash e q, b))
        ]

        no_cidr : has_byte 47 e ≡ false → is_ok (parse_cidr e) ≡ false
        no_cidr b = elim (Bool-cases (is_ok (parse_cidr e))) [
          | inl q ↦ absurd (cc (documented.cidr_slash e q, b))
          | inr q ↦ q
        ]

    preset_cases :
        (l : Str)
        → is_none (lookup l preset_cidrs) ≡ not (str_eq (lit "private") l || str_eq (lit "all") l)
    unfolding lookup
    preset_cases l = elim (Bool-cases (str_eq (lit "private") l)) [
      | inl e ↦ rw e refl
      | inr e ↦ elim (Bool-cases (str_eq (lit "all") l)) [
        | inl q ↦ rw (e, q) refl
        | inr q ↦ rw (e, q) refl
      ]
    ]

    lower_empty : (e : Str) → is_empty (to_lower e) ≡ is_empty e
    unfolding to_lower
    lower_empty [] = refl
    lower_empty (c ∷ e) = refl

    -- An entry that the check accepts lets the parser go on, and one that it rejects stops it.
    entry-ok :
        (raw : Str) (rest : Result (List Network))
        → is_ok (
            add_entry parse_ip parse_cidr single
              (trim_space raw)
              (lookup (to_lower (trim_space raw)) preset_cidrs)
              rest)
          ≡ (is_none (validate_trusted_proxy_entry parse_ip parse_cidr raw) && is_ok rest)
    unfolding validate_trusted_proxy_entry
    entry-ok raw rest =
        let e = trim_space raw in
        let l = to_lower e in
        let known = preset_cases l in
        elim (Option-cases (lookup l preset_cidrs)) [
          | inr (cidrs, q) ↦ rw q (
              add_preset-ok e cidrs rest (documented.presets l cidrs q)
              ∙ rw (not_empty q, named q) refl)
          | inl q ↦ rw q (
              plain_entry e rest ∙ (elim (Bool-cases (is_empty l)) [
                | inl n ↦ rw (n, no_cidr_empty n, no_ip_empty n) refl
                | inr n ↦
                    rw (n, unnamed q)
                      (verdict (is_ok (parse_cidr e)) (is_none (parse_ip e)) (is_ok rest))
              ]))
        ]
      where
        word : Str
        word = to_lower (trim_space raw)

        is_named : Bool
        is_named = str_eq (lit "private") word || str_eq (lit "all") word

        named : {cidrs : List Str} → lookup word preset_cidrs ≡ some cidrs → is_named ≡ true
        named q = not-false (sym (rw q at (preset_cases word)))

        unnamed : lookup word preset_cidrs ≡ none → is_named ≡ false
        unnamed q = not-true (sym (rw q at (preset_cases word)))

        not_empty :
            {cidrs : List Str} → lookup word preset_cidrs ≡ some cidrs → is_empty word ≡ false
        not_empty q = elim (Bool-cases (is_empty word)) [
          | inl n ↦ absurd (cc (nil_unnamed word n, named q))
          | inr n ↦ n
        ]

        nil : is_empty word ≡ true → trim_space raw ≡ []
        nil n = empty_nil (trim_space raw) (sym (lower_empty (trim_space raw)) ∙ n)

        no_ip_empty : is_empty word ≡ true → is_none (parse_ip (trim_space raw)) ≡ true
        no_ip_empty n = rw (nil n) documented.ip_given

        no_cidr_empty : is_empty word ≡ true → is_ok (parse_cidr (trim_space raw)) ≡ false
        no_cidr_empty n = elim (Bool-cases (is_ok (parse_cidr (trim_space raw)))) [
          | inl c ↦ absurd (no_slash (rw (nil n) at (documented.cidr_slash (trim_space raw) c)))
          | inr c ↦ c
        ]

    entries_iff :
        (es : List Str)
        → (is_ok (add_entries parse_ip parse_cidr single es) ≡ true)
          ↔ All (λ e. validate_trusted_proxy_entry parse_ip parse_cidr e ≡ none) es
    unfolding add_entries
    entries_iff [] = (λ h. tt, λ h. refl)
    entries_iff (e ∷ es) =
        let rest = add_entries parse_ip parse_cidr single es in
        let step = entry-ok e rest in
        let both =
          both_iff (is_none (validate_trusted_proxy_entry parse_ip parse_cidr e)) (is_ok rest) in
        let none_iff = is_none_iff (validate_trusted_proxy_entry parse_ip parse_cidr e) in
        let ih = entries_iff es in
        (
          λ h. let (a, b) = both.0 (sym step ∙ h) in (none_iff.0 a, ih.0 b),
          λ h. step ∙ both.1 (none_iff.1 h.0, ih.1 h.1),
        )

    to_set-ok : (r : Result (List Network)) → is_ok (to_set parse_ip parse_cidr single r) ≡ is_ok r
    to_set-ok (ok ns) = refl
    to_set-ok (err e) = refl

    -- The check of the configuration accepts every entry exactly if the parser that the feed sink
    -- uses reads the list: neither lets pass what the other rejects.
    pub parse_trusted_proxies_iff :
        (es : List Str)
        → (is_ok (parse_trusted_proxies parse_ip parse_cidr single es) ≡ true)
          ↔ All (λ e. validate_trusted_proxy_entry parse_ip parse_cidr e ≡ none) es
    unfolding parse_trusted_proxies add_entries
    parse_trusted_proxies_iff [] = (λ h. tt, λ h. refl)
    parse_trusted_proxies_iff (e ∷ es) =
        let same = to_set-ok (add_entries parse_ip parse_cidr single (e ∷ es)) in
        let (to, from) = entries_iff (e ∷ es) in (λ h. to (sym same ∙ h), λ h. same ∙ from h)
