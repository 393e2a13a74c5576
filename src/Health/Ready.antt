-- ===== src/Health/Ready.antt =====
-- When the probes of internal/health answer 200.
use rss2msg.Prelude.{
  ◌≡◌, refl, ◌↔◌, Str, Bool, true, false, Option, none, some, List, [], ◌∷◌, All, arith,
}
use rss2msg.Errors.{Err}
use rss2msg.Health.{Server, write_status, handle_startup, run_checks, handle_ready}

run_checks-ok :
    (cs : List (Str × Option Err)) → ((run_checks cs).code ≡ 200) ↔ All (λ c. c.1 ≡ none) cs
unfolding run_checks write_status
run_checks-ok [] = (λ h. tt, λ h. refl)
run_checks-ok ((name, none) ∷ cs) =
    (λ h. (refl, (run_checks-ok cs).0 h), λ h. (run_checks-ok cs).1 h.1)
run_checks-ok ((name, some e) ∷ cs) = (λ h. absurd (omega (arith, h)), λ h. absurd (cc (h.0)))

-- The readiness probe answers 200 exactly where boot has completed, shutdown has not begun and every
-- dependency check passes; the startup probe agrees with it on boot.
handle_ready_iff :
    (s : Server) (checks : List (Str × Option Err))
    → (((handle_ready s checks).code ≡ 200)
        ↔ ((s.started ≡ true) × (s.draining ≡ false) × All (λ c. c.1 ≡ none) checks))
      × (((handle_startup s).code ≡ 200) ↔ (s.started ≡ true))
unfolding handle_ready handle_startup write_status
handle_ready_iff s checks = (ready s.started s.draining, booted s.started)
  where
    ready :
        (a b : Bool)
        → ((handle_ready (record { started = a; draining = b }) checks).code ≡ 200)
          ↔ ((a ≡ true) × (b ≡ false) × All (λ c. c.1 ≡ none) checks)
    ready false b = (λ h. absurd (omega (arith, h)), λ h. absurd (cc (h.0)))
    ready true true = (λ h. absurd (omega (arith, h)), λ h. absurd (cc (h.1)))
    ready true false =
        let (to, from) = run_checks-ok checks in (λ h. (refl, refl, to h), λ h. from h.2)

    booted :
        (a : Bool)
        → ((handle_startup (record { started = a; draining = false })).code ≡ 200) ↔ (a ≡ true)
    booted false = (λ h. absurd (omega (arith, h)), λ h. absurd (cc (h)))
    booted true = (λ h. refl, λ h. refl)
