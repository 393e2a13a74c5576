-- ===== src/Health.antt =====
-- internal/health/health.go: the answers of the three probes. What a dependency check returns is
-- given with its name.
pub mod Ready
use rss2msg.Prelude.{
  ℕ, ◌≡◌, refl, ◌↔◌, Str, lit, Bool, true, false, not, Option, none, some, List, [], ◌∷◌, ◌++◌, All,
  if◌then◌else◌,
}
use rss2msg.Errors.{Err, error_text}

-- The flags of `Server`.
pub record Server : Type 0 where
  pub started : Bool
  pub draining : Bool

abbrev mark_started : Server → Server
mark_started s = record s { started = true }

abbrev set_draining : Server → Server
set_draining s = record s { draining = true }

-- A status code and a body.
pub record Response : Type 0 where
  pub code : ℕ
  pub body : Str

unfoldable pub write_status : ℕ → Str → Response
write_status code msg = record { code = code; body = msg ++ (10 ∷ []) }

abbrev handle_live : Server → Response
handle_live s = write_status 200 (lit "ok")

unfoldable pub handle_startup : Server → Response
unfolding write_status
handle_startup s =
    if not s.started then write_status 503 (lit "starting") else write_status 200 (lit "ok")

-- The loop over the checks; the first that fails ends it.
unfoldable pub run_checks : List (Str × Option Err) → Response
unfolding write_status
run_checks [] = write_status 200 (lit "ok")
run_checks ((name, none) ∷ cs) = run_checks cs
run_checks ((name, some e) ∷ cs) = write_status 503 (name ++ (lit ": " ++ error_text e))

unfoldable pub handle_ready : Server → List (Str × Option Err) → Response
unfolding run_checks
handle_ready s checks =
    if not s.started
    then write_status 503 (lit "starting")
    else if s.draining
    then write_status 503 (lit "draining")
    else run_checks checks
