-- ===== src/Config/Tls.antt =====
-- The settings of TLS that several components share, and pgSSLModeIsDisable, in
-- internal/config/validate.go. What net/url and the regular expression find in a connection string is
-- a parameter.
use rss2msg.Prelude.{
  Str, lit, Bool, true, false, not, ◌||◌, Option, none, some, [], ◌∷◌, is_empty, str_eq, ◌==◌,
  if◌then◌else◌,
}
use rss2msg.Prelude.Bytes.{to_lower}

pub record TlsConfig : Type 0 where
  pub ca_file : Str
  pub cert_file : Str
  pub key_file : Str
  pub server_name : Str
  pub insecure_skip_verify : Bool

abbrev pub tls_configured : TlsConfig → Bool
tls_configured t =
    not (is_empty t.ca_file)
    || (not (is_empty t.cert_file)
        || (not (is_empty t.key_file) || (not (is_empty t.server_name) || t.insecure_skip_verify)))

abbrev pub differ : Bool → Bool → Bool
differ true b = not b
differ false b = b

-- Only one of cert_file and key_file is set.
abbrev pub half_pair : Str → Str → Bool
half_pair cert_file key_file = differ (is_empty cert_file) (is_empty key_file)

unfoldable trim_quotes_left : Str → Str
trim_quotes_left [] = []
trim_quotes_left (c ∷ s) =
    let rest = trim_quotes_left s in if c == 34 || c == 39 then rest else c ∷ s

abbrev cons_unquoted : Bool → Str → Str → Str
cons_unquoted quote one [] = if quote then [] else one
cons_unquoted quote [] (d ∷ s) = d ∷ s
cons_unquoted quote (c ∷ cs) (d ∷ s) = c ∷ d ∷ s

unfoldable trim_quotes_right : Str → Str
trim_quotes_right [] = []
trim_quotes_right (c ∷ s) = cons_unquoted (c == 34 || c == 39) (c ∷ []) (trim_quotes_right s)

module _ (url_ssl_mode : Str → Option Str) (keyword_ssl_mode : Str → Option Str) where
  abbrev by_keyword : Option Str → Bool
  by_keyword none = false
  by_keyword (some m) = str_eq (trim_quotes_right (trim_quotes_left (to_lower m))) (lit "disable")

  abbrev by_url : Option Str → Bool → Bool
  by_url none rest = rest
  by_url (some v) rest = if is_empty v then rest else str_eq (to_lower v) (lit "disable")

  -- `pgSSLModeIsDisable`: the mode that a URL of PostgreSQL gives, else that of the keyword form.
  unfoldable pub ssl_mode_is_disable : Str → Bool
  unfolding trim_quotes_left trim_quotes_right to_lower
  ssl_mode_is_disable dsn = by_url (url_ssl_mode dsn) (by_keyword (keyword_ssl_mode dsn))
