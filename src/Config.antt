-- ===== src/Config.antt =====
-- internal/config/validate.go: the checks on the settings of the components, each a list of tests in
-- the order of the code. The first test that fails is the error, and the warnings before it stay. A
-- fault stands for the error at its place; the text of an error is left out.
pub mod ProxyEntry
pub mod Proxies
pub mod Tls
pub mod State
pub mod Coordination
pub mod Timing
pub mod FeedAuth
pub mod Sealed
pub mod SinkDrivers
pub mod FeedSinkCheck
pub mod Services
pub mod Guarded
pub mod Sources
use mathlib.Core.Path.{subst}
use rss2msg.Prelude.{
  ◌≡◌, refl, Str, Bool, true, false, Option, none, some, List, [], ◌∷◌, ◌++◌, Memᴰ, All,
  if◌then◌else◌, Bool-cases, inl, inr,
}

-- A test of the settings: `fails` ends the validation with an error, `warns` adds a warning.
pub data Check (F : Type 0) (W : Type 0) : Type 0 where
  fails : Bool → F → Check F W
  warns : Bool → W → Check F W

module _ {F W : Type 0} where
  abbrev warned : Bool → W → List W × Option F → List W × Option F
  warned true w (ws, f) = (w ∷ ws, f)
  warned false w rest = rest

  abbrev failed : Bool → F → List W × Option F → List W × Option F
  failed true f rest = ([], some f)
  failed false f rest = rest

  -- The warnings, and the error if there is one.
  unfoldable pub run_checks : List (Check F W) → List W × Option F
  run_checks [] = ([], none)
  run_checks (fails b f ∷ cs) = failed b f (run_checks cs)
  run_checks (warns b w ∷ cs) = warned b w (run_checks cs)

  -- A test that may fail does not.
  abbrev pub IsPassed : Check F W → Type 0
  IsPassed (fails b f) = b ≡ false
  IsPassed (warns b w) = Unit {0}

  accepted-IsPassed : (cs : List (Check F W)) → (run_checks cs).1 ≡ none → All IsPassed cs
  unfolding run_checks
  accepted-IsPassed [] h = tt
  accepted-IsPassed (fails true f ∷ cs) h = absurd (cc)
  accepted-IsPassed (fails false f ∷ cs) h = (refl, accepted-IsPassed cs h)
  accepted-IsPassed (warns true w ∷ cs) h = (tt, accepted-IsPassed cs h)
  accepted-IsPassed (warns false w ∷ cs) h = (tt, accepted-IsPassed cs h)

  abbrev pub concat : List (List (Check F W)) → List (Check F W)
  concat [] = []
  concat (cs ∷ css) = cs ++ concat css

  -- Groups of tests, one after another.
  unfoldable pub run_groups : List (List (Check F W)) → List W × Option F
  run_groups css = run_checks (concat css)

  split-All :
      (cs ds : List (Check F W)) → All IsPassed (cs ++ ds) → All IsPassed cs × All IsPassed ds
  split-All [] ds h = (tt, h)
  split-All (c ∷ cs) ds h =
      let (a, b) = split-All cs ds h.1 in let k : All IsPassed (c ∷ cs) = (h.0, a) in (k, b)

  concat-All : (css : List (List (Check F W))) → All IsPassed (concat css) → All (All IsPassed) css
  concat-All [] h = tt
  concat-All (cs ∷ css) h = let (a, b) = split-All cs (concat css) h in (a, concat-All css b)

  pub groups-IsPassed :
      (css : List (List (Check F W))) → (run_groups css).1 ≡ none → All (All IsPassed) css
  unfolding run_groups
  groups-IsPassed css h = concat-All css (accepted-IsPassed (concat css) h)

  warned-mem : (b : Bool) (w v : W) (r : List W × Option F) → Memᴰ v r.0 → Memᴰ v (warned b w r).0
  warned-mem true w v r m = Memᴰ.tail m
  warned-mem false w v r m = m

  warned-none : (b : Bool) (w : W) (r : List W × Option F) → (warned b w r).1 ≡ none → r.1 ≡ none
  warned-none true w r h = h
  warned-none false w r h = h

  -- A warning whose test holds is given, where there is no error.
  run-warns :
      (w : W) (cs : List (Check F W))
      → (run_checks cs).1 ≡ none
      → Memᴰ (warns true w) cs
      → Memᴰ w (run_checks cs).0
  unfolding run_checks
  run-warns w [] h m = elim m [ ]
  run-warns w (fails true f ∷ cs) h m = absurd (cc)
  run-warns w (fails false f ∷ cs) h (Memᴰ.head e) = absurd (cc)
  run-warns w (fails false f ∷ cs) h (Memᴰ.tail m) = run-warns w cs h m
  run-warns w (warns b v ∷ cs) h (Memᴰ.head e) =
      let holds : b ≡ true = cc in let same : w ≡ v = cc in rw holds (Memᴰ.head same)
  run-warns w (warns b v ∷ cs) h (Memᴰ.tail m) =
      warned-mem b v w (run_checks cs) (run-warns w cs (warned-none b v (run_checks cs) h) m)

  mem-left : (c : Check F W) (cs ds : List (Check F W)) → Memᴰ c cs → Memᴰ c (cs ++ ds)
  mem-left c [] ds m = elim m [ ]
  mem-left c (d ∷ cs) ds (Memᴰ.head e) = Memᴰ.head e
  mem-left c (d ∷ cs) ds (Memᴰ.tail m) = Memᴰ.tail (mem-left c cs ds m)

  mem-right : (c : Check F W) (cs ds : List (Check F W)) → Memᴰ c ds → Memᴰ c (cs ++ ds)
  mem-right c [] ds m = m
  mem-right c (d ∷ cs) ds m = Memᴰ.tail (mem-right c cs ds m)

  mem-concat :
      (c : Check F W) (cs : List (Check F W)) (css : List (List (Check F W)))
      → Memᴰ c cs
      → Memᴰ cs css
      → Memᴰ c (concat css)
  mem-concat c cs [] m k = elim k [ ]
  mem-concat c cs (ds ∷ css) m (Memᴰ.head e) =
      mem-left c ds (concat css) (subst (λ x. Memᴰ c x) e m)
  mem-concat c cs (ds ∷ css) m (Memᴰ.tail k) = mem-right c ds (concat css) (mem-concat c cs css m k)

  pub groups-warns :
      (w : W) (cs : List (Check F W)) (css : List (List (Check F W)))
      → (run_groups css).1 ≡ none
      → Memᴰ (warns true w) cs
      → Memᴰ cs css
      → Memᴰ w (run_groups css).0
  unfolding run_groups
  groups-warns w cs css h m k = run-warns w (concat css) h (mem-concat (warns true w) cs css m k)

-- A test in front of others, none of which finds a fault.
pub if-none :
    {F : Type 0} (b : Bool) (f : F) (others : Option F)
    → (if b then some f else others) ≡ none
    → (b ≡ false) × (others ≡ none)
if-none true f others h = absurd (cc)
if-none false f others h = (refl, h)
