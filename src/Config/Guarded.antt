-- ===== src/Config/Guarded.antt =====
-- Who can reach the admin API of a configuration that internal/config/validate.go accepts.
use rss2msg.Prelude.{
  ◌≡◌, refl, ◌⊎◌, inl, inr, Str, Bool, true, false, not, ◌&&◌, ◌||◌, Option, none, List, [], ◌∷◌,
  Memᴰ, All, Bool-cases,
}
use rss2msg.Config.{IsPassed, groups-IsPassed, groups-warns}
use rss2msg.Config.State.{blank}
use rss2msg.Config.Coordination.{Url}
use rss2msg.Config.Services.{
  AdminConfig, ServicesConfig, fully_open, Checks, only_if, mtls, admin_checks, health_checks,
  graphite_checks, cloudwatch_checks, check_services,
}

on_tls :
    (t ca cert key : Bool)
    → (t && not ca) ≡ true
    → (t && (cert || key)) ≡ false
    → (t ≡ true) × (ca ≡ false) × (cert ≡ false) × (key ≡ false)
on_tls false ca cert key m h = absurd (cc)
on_tls true true cert key m h = absurd (cc)
on_tls true false true key m h = absurd (cc)
on_tls true false false true m h = absurd (cc)
on_tls true false false false m h = (refl, refl, refl, refl)

only_if-IsPassed :
    (b : Bool) (cs : Checks) → b ≡ true → All IsPassed (only_if b cs) → All IsPassed cs
only_if-IsPassed true cs e h = h
only_if-IsPassed false cs e h = absurd (cc)

only_if-on : (b : Bool) (cs : Checks) → b ≡ true → cs ≡ only_if b cs
only_if-on true cs e = refl
only_if-on false cs e = absurd (cc)

-- The ways in which an API is guarded: by credentials, of which there are some; or by certificates
-- of clients, over TLS with a certificate of its own.
pub data Guarded (a : AdminConfig) : Type 0 where
  by_credentials : a.auth_enabled ≡ true → a.has_credentials ≡ true → Guarded a
  by_certificates :
      a.tls_enabled ≡ true
      → blank a.client_ca_file ≡ false
      → blank a.cert_file ≡ false
      → blank a.key_file ≡ false
      → Guarded a

module _ (parse_url : Str → Option Url) (c : ServicesConfig) where
  -- The groups of tests of the services.
  abbrev groups : List Checks
  groups =
      only_if c.health.enabled (health_checks c)
      ∷ only_if c.admin.enabled (admin_checks parse_url c)
      ∷ only_if c.graphite_enabled (graphite_checks c)
      ∷ only_if c.cloudwatch.enabled (cloudwatch_checks c)
      ∷ []

  -- An admin API that is accepted is guarded, or its being open to all is among the warnings.
  pub admin-Guarded :
      (check_services parse_url c).1 ≡ none
      → c.admin.enabled ≡ true
      → Guarded c.admin ⊎ Memᴰ fully_open (check_services parse_url c).0
  unfolding check_services
  admin-Guarded accepted enabled =
      let a = c.admin in
      let passed =
        only_if-IsPassed a.enabled (admin_checks parse_url c) enabled
          (groups-IsPassed groups accepted).1.0 in
      elim (Bool-cases a.auth_enabled) [
        | inl on ↦ inl (by_credentials on (given (rw on at passed.1.1.1.0)))
        | inr off ↦ elim (Bool-cases (mtls a)) [
          | inl m ↦ inl (certificates m passed.1.0)
          | inr m ↦ inr (
              groups-warns fully_open (admin_checks parse_url c) groups accepted
                (Memᴰ.tail (Memᴰ.tail (Memᴰ.tail (Memᴰ.tail (Memᴰ.head (rw (off, m) refl))))))
                (Memᴰ.tail (Memᴰ.head (only_if-on a.enabled (admin_checks parse_url c) enabled))))
        ]
      ]
    where
      given : {b : Bool} → not b ≡ false → b ≡ true
      given {b = true} h = refl
      given {b = false} h = absurd (cc)

      certificates :
          mtls c.admin ≡ true
          → (c.admin.tls_enabled && (blank c.admin.cert_file || blank c.admin.key_file)) ≡ false
          → Guarded c.admin
      certificates m h =
          let (t, ca, cert, key) =
            on_tls c.admin.tls_enabled (blank c.admin.client_ca_file) (blank c.admin.cert_file)
              (blank c.admin.key_file) m h in
          by_certificates t ca cert key
