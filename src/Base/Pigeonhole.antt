-- ===== src/Base/Pigeonhole.antt =====
-- Lists without repetition, counted: one within another of the same length has the same elements.
use namespace_lister.Base.Core.{
  ◌+◌, ◌≤◌, ◌≡◌, refl, true, false, List, [], ◌∷◌, inl, inr, arith, if◌then◌else◌, Bool-cases,
}
use namespace_lister.Base.Equality.{Eq, ◌==◌, contains}
use namespace_lister.Base.Lists.{length, IsNodup}

module _ {ℓ} {A : Type ℓ} ⦃e : Eq A⦄ where
  -- The list without the first occurrence.
  remove : A → List A → List A
  remove a [] = []
  remove a (x ∷ xs) = let rest = remove a xs in if x == a then xs else x ∷ rest

  length-remove :
      (a : A) (xs : List A) → contains xs a ≡ true → length (remove a xs) + 1 ≡ length xs
  unfolding remove contains
  length-remove a [] h = absurd (cc)
  length-remove a (x ∷ xs) h = ground (arith, length-remove a xs)

  contains-remove :
      (a b : A) (xs : List A) → (a == b) ≡ false → contains (remove a xs) b ≡ contains xs b
  unfolding remove contains
  contains-remove a b [] h = refl
  contains-remove a b (x ∷ xs) h = ground (arith, contains-remove a b xs h)

  -- Every element of the one list is in the other.
  abbrev pub IsWithin : List A → List A → Type ℓ
  IsWithin xs ys = (a : A) → contains xs a ≡ true → contains ys a ≡ true

  IsWithin-remove :
      (x : A) (xs ys : List A) → IsNodup (x ∷ xs) → IsWithin (x ∷ xs) ys → IsWithin xs (remove x ys)
  unfolding contains
  IsWithin-remove x xs ys (fresh, h) within a held =
      ground (arith, contains-remove x a ys, within a)

  pub length-IsWithin : (xs ys : List A) → IsNodup xs → IsWithin xs ys → length xs ≤ length ys
  unfolding contains
  length-IsWithin [] ys h within = omega arith
  length-IsWithin (x ∷ xs) ys h within = ground (
    arith,
    length-IsWithin xs (remove x ys) h.1 (IsWithin-remove x xs ys h within),
    length-remove x ys,
    within x,
  )

  pub IsWithin-sym :
      (xs ys : List A) → IsNodup xs → IsWithin xs ys → length xs ≡ length ys → IsWithin ys xs
  unfolding contains
  IsWithin-sym xs ys h within same a held = elim (Bool-cases (contains xs a)) [
    | inl found ↦ found
    | inr missing ↦ absurd (
        omega
          (arith, length-IsWithin (a ∷ xs) ys (missing, h) (λ b p. ground (arith, within b, held))))
  ]
