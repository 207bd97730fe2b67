-- ===== src/Base/Slices.antt =====
-- Go's slices that may be nil, runtime panics, and the unspecified order of a map's iteration.
use mathlib.Core.List.{Permᴰ}
use mathlib.Core.List.Permᴰ
use namespace_lister.Base.Core.{◌≡◌, refl, ◌∙◌, List, [], ◌∷◌, ◌++◌, Option, none, some, arith}
use namespace_lister.Base.Equality.{Eq, contains}

-- A slice: `none` is the nil slice, which has no elements either.
abbrev pub Slice {ℓ} : Type ℓ → Type ℓ
Slice A = Option (List A)

abbrev pub elements {ℓ} : {A : Type ℓ} → Slice A → List A
elements none = []
elements (some xs) = xs

-- `append(s, x)`
abbrev pub push {ℓ} : {A : Type ℓ} → Slice A → A → Slice A
push s x = some (elements s ++ x ∷ [])

-- The panics that the modelled code can raise: those of the Go runtime, those of functions named
-- `Must`, and that of `WriteHeader` for a code that is none.
pub data Fault : Type 0 where
  nil_dereference index_out_of_range failed_type_assertion failed_must invalid_status_code : Fault

pub data Outcome {ℓ} (A : Type ℓ) : Type ℓ where
  ok : A → Outcome A
  panic : Fault → Outcome A

infixl 5 ◌>>=◌
abbrev pub ◌>>=◌ {ℓ κ} : {A : Type ℓ} {B : Type κ} → Outcome A → (A → Outcome B) → Outcome B
ok a >>= f = f a
panic e >>= f = panic e

-- The order in which `range` visits a map's entries: any permutation of them.
pub record Iteration : Type 1 where
  pub visit : (A : Type 0) → List A → List A
  pub visit-perm : (A : Type 0) (l : List A) → Permᴰ (visit A l) l

abbrev pub in_order : Iteration
in_order = record { visit = λ A l. l; visit-perm = λ A l. Permᴰ.refl l }

module _ {ℓ} {A : Type ℓ} ⦃e : Eq A⦄ where
  pub contains-perm : {xs ys : List A} (a : A) → Permᴰ xs ys → contains xs a ≡ contains ys a
  unfolding contains
  contains-perm a Permᴰ.nil = refl
  contains-perm a (Permᴰ.cons p r) = ground (arith, contains-perm a r)
  contains-perm a (Permᴰ.swap p q) = ground arith
  contains-perm a (Permᴰ.trans r s) = contains-perm a r ∙ contains-perm a s
