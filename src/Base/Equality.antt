-- ===== src/Base/Equality.antt =====
-- Go's `==`, for every type whose equality is decided, and `slices.Contains`.
use namespace_lister.Base.Core.{
  String, ◌≡◌, Bool, true, false, ◌||◌, ite, dite, List, [], ◌∷◌, ℕ, arith,
}
use mathlib.Core.Bool.{Bool-discrete}
use native.Mathlib.Decide.{ℕ_discrete}
use text.Mathlib.Text
use text.Mathlib.TextEquality.{eq_iff}

pub record Eq {ℓ} (A : Type ℓ) : Type ℓ where
  pub dec : Discrete A

module _ {ℓ} {A : Type ℓ} ⦃e : Eq A⦄ where
  infix 50 ◌==◌
  abbrev pub ◌==◌ : A → A → Bool
  a == b = ite (e.dec a b) true false

  -- `slices.Contains`, the list first as in Go.
  unfoldable pub contains : List A → A → Bool
  contains [] a = false
  contains (x ∷ xs) a = x == a || contains xs a

  pub eq_refl : (a : A) → (a == a) ≡ true
  eq_refl a = ground arith

-- Shut in proofs, where a split on `s == t` gives the equation or its negation.
unfoldable pub String_dec : Discrete String
String_dec s t =
    dite (Bool-discrete (Text.◌==◌ s t) true) (λ same. yes ((eq_iff s t).0 same))
      (λ differ. no (λ p. differ ((eq_iff s t).1 p)))

instance unfoldable pub string_eq : Eq String
unfolding String_dec
string_eq = record { dec = String_dec }

instance unfoldable pub nat_eq : Eq ℕ
nat_eq = record { dec = ℕ_discrete }
