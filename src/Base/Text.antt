-- ===== src/Base/Text.antt =====
-- Splitting a text at a character, as `strings.Split` does for a separator of one character.
use Prim.Native.Char.{Char, code}
use Prim.Native.String
use Prim.Native.String.{String}
use text.Mathlib.TextLemmas.{nil-append, cons-append}
use namespace_lister.Base.Core.{ℕ, ◌+◌, ◌<◌, ◌≡◌, ◌≢◌, refl, List, [], ◌∷◌, if◌then◌else◌, arith}
use namespace_lister.Base.Equality.{◌==◌, nat_eq}
use namespace_lister.Base.Lists.{length}

-- The character `c` in front of the first part.
abbrev pub extend_first : Char → List String → List String
extend_first c [] = String.◌∷◌ c String.[] ∷ []
extend_first c (p ∷ ps) = String.◌∷◌ c p ∷ ps

unfoldable pub split_on : ℕ → String → List String
split_on sep String.[] = "" ∷ []
split_on sep (String.◌∷◌ c s) =
    let rest = split_on sep s in if code c == sep then "" ∷ rest else extend_first c rest

abbrev pub Lacks : ℕ → String → Type 0
Lacks sep String.[] = Unit
Lacks sep (String.◌∷◌ c s) = (code c ≢ sep) × Lacks sep s

-- How often the character occurs.
abbrev pub occurrences : ℕ → String → ℕ
occurrences sep String.[] = 0
occurrences sep (String.◌∷◌ c s) = (if code c == sep then 1 else 0) + occurrences sep s

pub split_on-Lacks : (sep : ℕ) (s : String) → Lacks sep s → split_on sep s ≡ s ∷ []
unfolding split_on
split_on-Lacks sep String.[] h = refl
split_on-Lacks sep (String.◌∷◌ c s) (p, h) = ground (arith, split_on-Lacks sep s h)

-- A part that lacks the separator, the separator, and more text.
pub split_on-append :
    (c : Char) (s t : String)
    → Lacks (code c) s
    → split_on (code c) (String.◌++◌ s (String.◌∷◌ c t)) ≡ s ∷ split_on (code c) t
unfolding split_on
split_on-append c String.[] t h = rw nil-append (ground arith)
split_on-append c (String.◌∷◌ d s) t (p, h) =
    rw cons-append (ground (arith, split_on-append c s t h))

length-extend_first :
    (c : Char) (ps : List String) → 0 < length ps → length (extend_first c ps) ≡ length ps
length-extend_first c [] h = absurd (omega arith)
length-extend_first c (p ∷ ps) h = refl

pub length-split_on : (sep : ℕ) (s : String) → length (split_on sep s) ≡ occurrences sep s + 1
unfolding split_on
length-split_on sep String.[] = omega arith
length-split_on sep (String.◌∷◌ c s) =
    ground (arith, length-split_on sep s, length-extend_first c (split_on sep s))
