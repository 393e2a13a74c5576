-- ===== src/Http.antt =====
-- What the handlers read of a request and write of a reply (net/http). The username and the password
-- that BasicAuth finds in the Authorization header stand beside the headers.
use rss2msg.Prelude.{ℕ, Str, lit, Bool, Option, List, [], ◌∷◌, ◌++◌}
use rss2msg.Prelude.Map.{insert}

pub record Request : Type 0 where
  pub method : Str
  pub path : Str
  pub host : Str
  pub tls : Bool
  pub remote_addr : Str
  -- Header.Get: "" for a header that is not there
  pub header : Str → Str
  pub basic_auth : Option (Str × Str)

pub record Reply : Type 0 where
  pub status : ℕ
  pub headers : List (Str × Str)
  pub body : Str

-- w.Header().Set
abbrev pub set_header : Str → Str → Reply → Reply
set_header k v w = record w { headers = insert k v w.headers }

-- Before a handler has written anything; a handler that writes no status sends 200.
abbrev pub no_reply : Reply
no_reply = record { status = 200; headers = []; body = [] }

-- http.Error
abbrev pub http_error : Str → ℕ → Reply → Reply
http_error text status w =
    record (set_header (lit "X-Content-Type-Options") (lit "nosniff")
      (set_header (lit "Content-Type") (lit "text/plain; charset=utf-8") w)) {
        status = status;
        body = text ++ (10 ∷ []);
      }
