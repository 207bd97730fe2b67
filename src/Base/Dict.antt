-- ===== src/Base/Dict.antt =====
-- Go's maps as association lists. A write to a key that is present replaces its value in place.
use namespace_lister.Base.Core.{
  ◌≡◌, refl, ◌≢◌, true, Option, none, some, List, [], ◌∷◌, arith, if◌then◌else◌,
}
use namespace_lister.Base.Equality.{Eq, ◌==◌, contains}
use namespace_lister.Base.Lists.{IsNodup}

abbrev pub Dict {ℓ κ} : Type ℓ → Type κ → Type (ℓ ⊔ κ)
Dict K V = List (K × V)

abbrev pub keys {ℓ κ} : {K : Type ℓ} {V : Type κ} → Dict K V → List K
keys [] = []
keys ((k, v) ∷ d) = k ∷ keys d

abbrev pub values {ℓ κ} : {K : Type ℓ} {V : Type κ} → Dict K V → List V
values [] = []
values ((k, v) ∷ d) = v ∷ values d

module _ {ℓ κ} {K : Type ℓ} {V : Type κ} ⦃e : Eq K⦄ where
  unfoldable pub lookup : K → Dict K V → Option V
  lookup k [] = none
  lookup k ((j, v) ∷ d) = if j == k then some v else lookup k d

  -- `d[k] = v`
  unfoldable pub insert : K → V → Dict K V → Dict K V
  insert k v [] = (k, v) ∷ []
  insert k v ((j, w) ∷ d) = if j == k then (k, v) ∷ d else (j, w) ∷ insert k v d

  pub lookup-insert :
      (j k : K) (v : V) (d : Dict K V)
      → lookup j (insert k v d) ≡ (if k == j then some v else lookup j d)
  unfolding lookup insert
  lookup-insert j k v [] = refl
  lookup-insert j k v ((i, w) ∷ d) = ground (arith, lookup-insert j k v d)

  pub insert-insert : (k : K) (v w : V) (d : Dict K V) → insert k v (insert k w d) ≡ insert k v d
  unfolding insert
  insert-insert k v w [] = ground arith
  insert-insert k v w ((i, x) ∷ d) = ground (arith, insert-insert k v w d)

  pub contains-keys-insert :
      (j k : K) (v : V) (d : Dict K V)
      → contains (keys (insert k v d)) j ≡ (if k == j then true else contains (keys d) j)
  unfolding insert contains
  contains-keys-insert j k v [] = ground arith
  contains-keys-insert j k v ((i, w) ∷ d) = ground (arith, contains-keys-insert j k v d)

  pub insert-IsNodup :
      (k : K) (v : V) (d : Dict K V) → IsNodup (keys d) → IsNodup (keys (insert k v d))
  unfolding insert contains
  insert-IsNodup k v [] h = ground arith
  insert-IsNodup k v ((j, w) ∷ d) (fresh, h) =
      ground (arith, insert-IsNodup k v d h, contains-keys-insert j k v d)

  -- A key is present exactly when a lookup finds it.
  pub lookup-keys :
      (k : K) (d : Dict K V)
      → (if contains (keys d) k then lookup k d ≢ none else lookup k d ≡ none)
  unfolding lookup contains
  lookup-keys k [] = refl
  lookup-keys k ((j, v) ∷ d) = ground (arith, lookup-keys k d)
