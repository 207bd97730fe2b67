-- ===== src/AccessCache.antt =====
-- pkg/auth/cache/atomiclistrestockcache.go: a key-value cache behind an atomic pointer. The capacity
-- that `listAll` asks for and clips off again is not kept.
pub mod Listing
use namespace_lister.Base.{
  Bool, true, false, Option, none, some, List, [], ◌∷◌, Eq, if◌then◌else◌, Slice, elements, Outcome,
  ok, panic, nil_dereference, ◌>>=◌, Iteration,
}
use namespace_lister.Base.Dict.{Dict, lookup, insert, values}

-- `AtomicListRestockCache`: `cached` is what the pointer `data` refers to, if it is not nil.
pub record AtomicListRestockCache (K E I : Type 0) : Type 0 where
  pub cached : Option (Dict K (Slice E))
  pub id_func : E → I

module _ {K E I : Type 0} where
  unfoldable pub new_atomic_list_restock_cache : (E → I) → AtomicListRestockCache K E I
  new_atomic_list_restock_cache id_func = record { cached = none; id_func = id_func }

  -- `Restock`
  unfoldable pub restock :
      Dict K (Slice E) → AtomicListRestockCache K E I → AtomicListRestockCache K E I
  restock fresh c = record c { cached = some fresh }

module _ {E I : Type 0} ⦃i : Eq I⦄ (id_func : E → I) where
  -- the inner loop of `listAll`
  unfoldable pub add_all : List E → Dict I E → Dict I E
  add_all [] d = d
  add_all (n ∷ nn) d =
      add_all nn (elim (lookup (id_func n) d) [ none ↦ insert (id_func n) n d | some _ ↦ d ])

  -- the outer loop of `listAll`; the pointer is followed in every round
  unfoldable pub collect :
      {K : Type 0} ⦃k : Eq K⦄ → Option (Dict K (Slice E)) → List K → Dict I E → Outcome (Dict I E)
  collect m [] d = ok d
  collect none (k ∷ ks) d = panic nil_dereference
  collect (some m) (k ∷ ks) d = elim (lookup k m) [
    | none ↦ collect (some m) ks d
    | some nn ↦ collect (some m) ks (add_all (elements nn) d)
  ]

module _ {K E I : Type 0} ⦃k : Eq K⦄ ⦃i : Eq I⦄ where
  -- `list`: a read of a missing key gives the nil slice.
  unfoldable pub list : AtomicListRestockCache K E I → K → Slice E
  list c key = elim c.cached [
    | none ↦ none
    | some m ↦ elim (lookup key m) [ none ↦ none | some nn ↦ nn ]
  ]

  -- `listAll`
  unfoldable pub list_all : Iteration → AtomicListRestockCache K E I → List K → Outcome (Slice E)
  unfolding collect add_all
  list_all it c keys = do
    d ← collect c.id_func c.cached keys []
    ok (some (values (it.visit (I × E) d)))

  -- `List`
  unfoldable pub list_keys : Iteration → AtomicListRestockCache K E I → List K → Outcome (Slice E)
  unfolding list list_all
  list_keys it c [] = ok none
  list_keys it c (key ∷ []) = ok (list c key)
  list_keys it c (key ∷ key' ∷ keys) = list_all it c (key ∷ key' ∷ keys)
