-- ===== src/Prelude/Bytes.antt =====
-- What the code uses of Go's package strings, on strings as lists of bytes.
use Prim.Native.Nat.{ℕ, ◌+◌}
use mathlib.Core.Path.{◌≡◌, refl, ap}
use mathlib.Core.Logic.{inl, inr}
use mathlib.Core.Bool.{Bool, true, false, ◌&&◌}
use mathlib.Core.Option.{Option, none, some}
use mathlib.Core.List.{List, [], ◌∷◌, ◌++◌}
use native.Mathlib.Omega.{arith}
use rss2msg.Prelude.Tests.{leb, ◌==◌, if◌then◌else◌, Bool-cases}
use rss2msg.Prelude.Text.{Str}

abbrev push : ℕ → List Str → List Str
push c [] = (c ∷ []) ∷ []
push c (p ∷ ps) = (c ∷ p) ∷ ps

-- strings.Split with a separator of one byte
unfoldable pub split : ℕ → Str → List Str
split sep [] = [] ∷ []
split sep (c ∷ s) = let rest = split sep s in if c == sep then [] ∷ rest else push c rest

split-nonempty : (sep : ℕ) (s : Str) → (p : Str) × (ps : List Str) × (split sep s ≡ p ∷ ps)
unfolding split
split-nonempty sep [] = ([], [], refl)
split-nonempty sep (c ∷ s) = elim (Bool-cases (c == sep)) [
  | inl e ↦ ([], split sep s, rw e refl)
  | inr e ↦ let (p, ps, q) = split-nonempty sep s in (c ∷ p, ps, rw (e, q) refl)
]

push-append : (c : ℕ) (p : Str) (ps qs : List Str) → push c ((p ∷ ps) ++ qs) ≡ push c (p ∷ ps) ++ qs
push-append c p ps qs = refl

-- A separator between two strings separates their pieces.
pub split-append : (sep : ℕ) (s t : Str) → split sep (s ++ (sep ∷ t)) ≡ split sep s ++ split sep t
unfolding split
split-append sep [] t = ground arith
split-append sep (c ∷ s) t = elim (Bool-cases (c == sep)) [
  | inl e ↦ rw e (ap (λ ps. [] ∷ ps) (split-append sep s t))
  | inr e ↦ let (p, ps, q) = split-nonempty sep s in rw e (rw (split-append sep s t) (rw q refl))
]

-- strings.Cut at one byte; `none` where the byte is not found.
unfoldable pub cut : ℕ → Str → Option (Str × Str)
cut sep [] = none
cut sep (c ∷ s) = elim (c == sep) [ true ↦ some ([], s) | false ↦ after (cut sep s) ]
  where
    after : Option (Str × Str) → Option (Str × Str)
    after none = none
    after (some (a, b)) = some (c ∷ a, b)

-- The part of a string before a byte, all of it where the byte is not found.
unfoldable pub before : ℕ → Str → Str
before sep [] = []
before sep (c ∷ s) = let rest = before sep s in if c == sep then [] else c ∷ rest

abbrev lower_byte : ℕ → ℕ
lower_byte c = if leb 65 c && leb c 90 then c + 32 else c

-- strings.ToLower, of ASCII
unfoldable pub to_lower : Str → Str
to_lower [] = []
to_lower (c ∷ s) = lower_byte c ∷ to_lower s

abbrev cons_trimmed : ℕ → ℕ → Str → Str
cons_trimmed t c [] = if c == t then [] else c ∷ []
cons_trimmed t c (d ∷ s) = c ∷ d ∷ s

-- strings.TrimRight of one byte
unfoldable pub trim_right_byte : ℕ → Str → Str
trim_right_byte t [] = []
trim_right_byte t (c ∷ s) = cons_trimmed t c (trim_right_byte t s)

-- strings.TrimLeft of one byte
unfoldable pub trim_left_byte : ℕ → Str → Str
trim_left_byte t [] = []
trim_left_byte t (c ∷ s) = let rest = trim_left_byte t s in if c == t then rest else c ∷ s

unfoldable pub has_byte : ℕ → Str → Bool
has_byte b [] = false
has_byte b (c ∷ s) = let rest = has_byte b s in if c == b then true else rest

unfoldable pub starts_with : Str → Str → Bool
starts_with [] s = true
starts_with (p ∷ ps) [] = false
starts_with (p ∷ ps) (c ∷ s) = let rest = starts_with ps s in c == p && rest

-- strings.Index: what stands before the first occurrence, and the string from it on.
unfoldable pub find_in : Str → Str → Option (Str × Str)
unfolding starts_with
find_in pat [] = if starts_with pat [] then some ([], []) else none
find_in pat (c ∷ s) = elim (starts_with pat (c ∷ s)) [
  | true ↦ some ([], c ∷ s)
  | false ↦ after (find_in pat s)
]
  where
    after : Option (Str × Str) → Option (Str × Str)
    after none = none
    after (some (a, b)) = some (c ∷ a, b)
