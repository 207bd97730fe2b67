-- ===== src/Base/Sort.antt =====
-- The sort and the removal of repeats of Go's `slices` package. A sorted result is unique where only
-- equal values compare equal, so insertion stands for the algorithm of `slices.SortFunc`.
use namespace_lister.Base.Core.{
  Ordering, ◌≡◌, ◌≢◌, ◌↔◌, refl, sym, ap₂, Bool, true, false, ◌||◌, List, [], ◌∷◌, arith,
  if◌then◌else◌, Bool-cases, inl, inr,
}
use namespace_lister.Base.Equality.{Eq, ◌==◌, contains, eq_refl}
use namespace_lister.Base.Lists.{All, IsNodup}
use namespace_lister.Base.Order.{IsOrder}

module _ {ℓ} {A : Type ℓ} where
  insert_sorted : (A → A → Ordering) → A → List A → List A
  insert_sorted cmp a [] = a ∷ []
  insert_sorted cmp a (x ∷ xs) = elim (cmp a x) [
    | Ordering.gt ↦ x ∷ insert_sorted cmp a xs
    | _ ↦ a ∷ x ∷ xs
  ]

  -- `slices.SortFunc`
  unfoldable pub sort_func : (A → A → Ordering) → List A → List A
  unfolding insert_sorted
  sort_func cmp [] = []
  sort_func cmp (x ∷ xs) = insert_sorted cmp x (sort_func cmp xs)

  compact_from : (A → A → Bool) → A → List A → List A
  compact_from eq prev [] = []
  compact_from eq prev (x ∷ xs) =
      let rest = compact_from eq x xs in if eq x prev then rest else x ∷ rest

  -- `slices.CompactFunc`: an element that `eq` finds equal to the one before it is dropped.
  unfoldable pub compact_func : (A → A → Bool) → List A → List A
  unfolding compact_from
  compact_func eq [] = []
  compact_func eq (x ∷ xs) = x ∷ compact_from eq x xs

module _ {ℓ} {A : Type ℓ} (cmp : A → A → Ordering) where
  -- No element is above a later one.
  abbrev IsSorted : List A → Type 0
  IsSorted [] = Unit
  IsSorted (x ∷ xs) = All (λ y. cmp x y ≢ Ordering.gt) xs × IsSorted xs

  -- Each element is below every later one.
  abbrev pub IsStrictlySorted : List A → Type 0
  IsStrictlySorted [] = Unit
  IsStrictlySorted (x ∷ xs) = All (λ y. cmp x y ≡ Ordering.lt) xs × IsStrictlySorted xs

module _ {ℓ} {A : Type ℓ} {cmp : A → A → Ordering} (o : IsOrder cmp) where
  open o.weak use {reflexive, flip, trans, congr}

  not-gt_trans : (a b c : A) → cmp a b ≢ Ordering.gt → cmp b c ≢ Ordering.gt → cmp a c ≢ Ordering.gt
  not-gt_trans a b c p q = ground (arith, trans a b c, congr a b c, o.eq_of b c)

  insert_sorted-All :
      (x a : A) (xs : List A)
      → cmp x a ≢ Ordering.gt
      → All (λ y. cmp x y ≢ Ordering.gt) xs
      → All (λ y. cmp x y ≢ Ordering.gt) (insert_sorted cmp a xs)
  unfolding insert_sorted
  insert_sorted-All x a [] p h = (p, tt)
  insert_sorted-All x a (y ∷ ys) p (q, h) = ground (arith, insert_sorted-All x a ys p h)

  All-not-gt :
      (a x : A) (xs : List A)
      → cmp a x ≢ Ordering.gt
      → All (λ y. cmp x y ≢ Ordering.gt) xs
      → All (λ y. cmp a y ≢ Ordering.gt) xs
  All-not-gt a x [] p h = tt
  All-not-gt a x (y ∷ ys) p (q, h) = (not-gt_trans a x y p q, All-not-gt a x ys p h)

  insert_sorted-IsSorted :
      (a : A) (xs : List A) → IsSorted cmp xs → IsSorted cmp (insert_sorted cmp a xs)
  unfolding insert_sorted
  insert_sorted-IsSorted a [] h = (tt, tt)
  insert_sorted-IsSorted a (x ∷ xs) (p, h) =
      ground (
        arith,
        insert_sorted-IsSorted a xs h,
        insert_sorted-All x a xs,
        All-not-gt a x xs,
        flip a x,
      )

  sort_func-IsSorted : (xs : List A) → IsSorted cmp (sort_func cmp xs)
  unfolding sort_func
  sort_func-IsSorted [] = tt
  sort_func-IsSorted (x ∷ xs) = insert_sorted-IsSorted x (sort_func cmp xs) (sort_func-IsSorted xs)

  All-lt :
      (a x : A) (xs : List A)
      → cmp a x ≡ Ordering.lt
      → All (λ y. cmp x y ≡ Ordering.lt) xs
      → All (λ y. cmp a y ≡ Ordering.lt) xs
  All-lt a x [] p h = tt
  All-lt a x (y ∷ ys) p (q, h) = (trans a x y p q, All-lt a x ys p h)

  module _ {eq : A → A → Bool} (same : (a b : A) → (eq a b ≡ true) ↔ (a ≡ b)) where
    compact_from-IsStrictlySorted :
        (prev : A) (xs : List A)
        → All (λ y. cmp prev y ≢ Ordering.gt) xs
        → IsSorted cmp xs
        → IsStrictlySorted cmp (prev ∷ compact_from eq prev xs)
    unfolding compact_from
    compact_from-IsStrictlySorted prev [] p h = (tt, tt)
    compact_from-IsStrictlySorted prev (x ∷ xs) (p, _) (q, h) =
        let later = compact_from-IsStrictlySorted x xs q h in
        elim (Bool-cases (eq x prev)) [
          | inl repeated ↦ rw repeated (rw (sym ((same x prev).0 repeated)) later)
          | inr new ↦
              let below : cmp prev x ≡ Ordering.lt =
                ground (arith, o.eq_of prev x, (same x prev).1) in
              rw new ((below, All-lt prev x (compact_from eq x xs) below later.0), later)
        ]

    -- Sorting and then dropping repeats leaves a strictly increasing list.
    pub compact_func-IsStrictlySorted :
        (xs : List A) → IsStrictlySorted cmp (compact_func eq (sort_func cmp xs))
    unfolding compact_func
    compact_func-IsStrictlySorted xs = go (sort_func cmp xs) (sort_func-IsSorted xs)
      where
        go : (ys : List A) → IsSorted cmp ys → IsStrictlySorted cmp (compact_func eq ys)
        go [] h = tt
        go (y ∷ ys) (p, h) = compact_from-IsStrictlySorted y ys p h

  module _ ⦃e : Eq A⦄ where
    insert_sorted-contains :
        (x a : A) (xs : List A) → contains (insert_sorted cmp x xs) a ≡ (x == a || contains xs a)
    unfolding insert_sorted contains
    insert_sorted-contains x a [] = refl
    insert_sorted-contains x a (y ∷ ys) = ground (arith, insert_sorted-contains x a ys)

    pub sort_func-contains : (xs : List A) (a : A) → contains (sort_func cmp xs) a ≡ contains xs a
    unfolding sort_func contains
    sort_func-contains [] a = refl
    sort_func-contains (x ∷ xs) a =
        rw (insert_sorted-contains x a (sort_func cmp xs), sort_func-contains xs a)

    compact_from-contains :
        {eq : A → A → Bool} (same : (a b : A) → (eq a b ≡ true) ↔ (a ≡ b)) (prev a : A)
        (xs : List A)
        → contains (prev ∷ compact_from eq prev xs) a ≡ contains (prev ∷ xs) a
    unfolding compact_from contains
    compact_from-contains same prev a [] = refl
    compact_from-contains same prev a (x ∷ xs) =
        ground (arith, same x prev, compact_from-contains same x a xs)

    pub compact_func-contains :
        {eq : A → A → Bool} (same : (a b : A) → (eq a b ≡ true) ↔ (a ≡ b)) (xs : List A) (a : A)
        → contains (compact_func eq xs) a ≡ contains xs a
    unfolding compact_func
    compact_func-contains same [] a = refl
    compact_func-contains same (x ∷ xs) a = compact_from-contains same x a xs

    not-contains :
        (a : A) (xs : List A) → All (λ y. cmp a y ≡ Ordering.lt) xs → contains xs a ≡ false
    unfolding contains
    not-contains a [] h = refl
    not-contains a (x ∷ xs) (p, h) = ground (arith, not-contains a xs h, reflexive a)

    pub IsStrictlySorted-IsNodup : (xs : List A) → IsStrictlySorted cmp xs → IsNodup xs
    IsStrictlySorted-IsNodup [] h = tt
    IsStrictlySorted-IsNodup (x ∷ xs) (p, h) = (not-contains x xs p, IsStrictlySorted-IsNodup xs h)

    head-not-lt :
        (x y : A) (xs ys : List A)
        → All (λ z. cmp y z ≡ Ordering.lt) ys
        → contains (y ∷ ys) x ≡ contains (x ∷ xs) x
        → cmp x y ≢ Ordering.lt
    unfolding contains
    head-not-lt x y xs ys q same below =
        cc (not-contains x (y ∷ ys) (below, All-lt x y ys below q), same, eq_refl x)

    tails_agree :
        (x a : A) (xs ys : List A)
        → All (λ z. cmp x z ≡ Ordering.lt) xs
        → All (λ z. cmp x z ≡ Ordering.lt) ys
        → contains (x ∷ xs) a ≡ contains (x ∷ ys) a
        → contains xs a ≡ contains ys a
    unfolding contains
    tails_agree x a xs ys p q same = ground (arith, not-contains x xs p, not-contains x ys q)

    -- A strictly increasing list is determined by its elements.
    pub IsStrictlySorted-unique :
        (xs ys : List A)
        → IsStrictlySorted cmp xs
        → IsStrictlySorted cmp ys
        → ((a : A) → contains xs a ≡ contains ys a)
        → xs ≡ ys
    unfolding contains
    IsStrictlySorted-unique [] [] h k same = refl
    IsStrictlySorted-unique [] (y ∷ ys) h k same = absurd (ground (arith, same y))
    IsStrictlySorted-unique (x ∷ xs) [] h k same = absurd (ground (arith, same x))
    IsStrictlySorted-unique (x ∷ xs) (y ∷ ys) (p, h) (q, k) same =
        let heads : x ≡ y = ground (
          arith,
          o.eq_of x y,
          flip x y,
          head-not-lt x y xs ys q (sym (same x)),
          head-not-lt y x ys xs p (same y),
        ) in
        let q' = rw (sym heads) at q in
        let same' = rw (sym heads) at same in
        ap₂ ◌∷◌ heads
          (IsStrictlySorted-unique xs ys h k (λ a. tails_agree x a xs ys p q' (same' a)))
