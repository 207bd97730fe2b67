-- ===== src/AccessCache/Listing.antt =====
-- What `List` of pkg/auth/cache/atomiclistrestockcache.go returns.
use mathlib.Core.List.{Permᴰ}
use mathlib.Core.List.Permᴰ
use mathlib.Core.List.{append-nil}
use namespace_lister.Base.{
  subst, ◌↔◌, ◌≤◌, length, ◌≡◌, refl, sym, ◌∙◌, ap, Option, none, some, List, [], ◌∷◌, ◌++◌, map,
  Eq, ◌==◌, contains, if◌then◌else◌, Slice, elements, ok, panic, nil_dereference, Iteration, arith,
  IsNodup, contains-perm, Option-cases, inl, inr,
}
use namespace_lister.Base.Dict.{Dict, lookup, insert, values, keys, lookup-insert, insert-IsNodup}
use namespace_lister.AccessCache.{
  AtomicListRestockCache, add_all, collect, list, list_all, list_keys,
}

module _ {E I : Type 0} ⦃i : Eq I⦄ (id_func : E → I) where
  -- The first element with the given id.
  unfoldable pub find_id : I → List E → Option E
  find_id a [] = none
  find_id a (n ∷ nn) = if id_func n == a then some n else find_id a nn

  abbrev or_else : Option E → Option E → Option E
  or_else none o = o
  or_else (some n) o = some n

  lookup-add_all :
      (a : I) (nn : List E) (d : Dict I E)
      → lookup a (add_all id_func nn d) ≡ or_else (lookup a d) (find_id a nn)
  unfolding add_all find_id
  lookup-add_all a [] d = ground arith
  lookup-add_all a (n ∷ nn) d = ground (
    arith,
    lookup-add_all a nn d,
    lookup-add_all a nn (insert (id_func n) n d),
    lookup-insert a (id_func n) n d,
  )

  add_all-IsNodup :
      (nn : List E) (d : Dict I E) → IsNodup (keys d) → IsNodup (keys (add_all id_func nn d))
  unfolding add_all
  add_all-IsNodup [] d h = h
  add_all-IsNodup (n ∷ nn) d h = ground (
    arith,
    add_all-IsNodup nn d h,
    add_all-IsNodup nn (insert (id_func n) n d),
    insert-IsNodup (id_func n) n d h,
  )

  -- Every entry of the map stands under its element's id.
  abbrev IsKeyed : Dict I E → Type 0
  IsKeyed [] = Unit
  IsKeyed ((a, n) ∷ d) = (a ≡ id_func n) × IsKeyed d

  insert-IsKeyed : (n : E) (d : Dict I E) → IsKeyed d → IsKeyed (insert (id_func n) n d)
  unfolding insert
  insert-IsKeyed n [] h = (refl, tt)
  insert-IsKeyed n ((a, m) ∷ d) (p, h) = ground (arith, insert-IsKeyed n d h)

  add_all-IsKeyed : (nn : List E) (d : Dict I E) → IsKeyed d → IsKeyed (add_all id_func nn d)
  unfolding add_all
  add_all-IsKeyed [] d h = h
  add_all-IsKeyed (n ∷ nn) d h = ground (
    arith,
    add_all-IsKeyed nn d h,
    add_all-IsKeyed nn (insert (id_func n) n d),
    insert-IsKeyed n d h,
  )

  keys_of_IsKeyed : (d : Dict I E) → IsKeyed d → keys d ≡ map id_func (values d)
  keys_of_IsKeyed [] h = refl
  keys_of_IsKeyed ((a, n) ∷ d) (p, h) = cc (keys_of_IsKeyed d h)

  lookup_of_IsKeyed : (a : I) (d : Dict I E) → IsKeyed d → lookup a d ≡ find_id a (values d)
  unfolding lookup find_id
  lookup_of_IsKeyed a [] h = refl
  lookup_of_IsKeyed a ((b, n) ∷ d) (p, h) = ground (arith, lookup_of_IsKeyed a d h)

  -- The slices that a map holds under the keys, one after the other.
  unfoldable pub slices_of : {K : Type 0} ⦃k : Eq K⦄ → Dict K (Slice E) → List K → List E
  slices_of m [] = []
  slices_of m (k ∷ ks) = elim (lookup k m) [
    | none ↦ slices_of m ks
    | some nn ↦ elements nn ++ slices_of m ks
  ]

  add_all-append :
      (xs ys : List E) (d : Dict I E)
      → add_all id_func (xs ++ ys) d ≡ add_all id_func ys (add_all id_func xs d)
  unfolding add_all
  add_all-append [] ys d = refl
  add_all-append (x ∷ xs) ys d = add_all-append xs ys _

  -- On a cache with data the outer loop returns, and adds the slices in the order of the keys.
  collect-slices_of :
      {K : Type 0} ⦃k : Eq K⦄ (m : Dict K (Slice E)) (ks : List K) (d : Dict I E)
      → collect id_func (some m) ks d ≡ ok (add_all id_func (slices_of m ks) d)
  unfolding collect slices_of add_all
  collect-slices_of m [] d = refl
  collect-slices_of m (k ∷ ks) d = elim (Option-cases (lookup k m)) [
    | inl missing ↦ rw (missing, collect, slices_of) (collect-slices_of m ks d)
    | inr (nn, found) ↦
        rw (found, collect, slices_of)
          (collect-slices_of m ks (add_all id_func (elements nn) d)
            ∙ ap ok (sym (add_all-append (elements nn) (slices_of m ks) d)))
  ]

  IsNodup-perm :
      {xs ys : List E} → Permᴰ xs ys → IsNodup (map id_func xs) → IsNodup (map id_func ys)
  unfolding contains
  IsNodup-perm Permᴰ.nil h = tt
  IsNodup-perm (Permᴰ.cons {a = x} p r) (q, h) =
      (ground (arith, contains-perm (id_func x) (Permᴰ.map id_func r)), IsNodup-perm r h)
  IsNodup-perm (Permᴰ.swap p q) h = ground arith
  IsNodup-perm (Permᴰ.trans r s) h = IsNodup-perm s (IsNodup-perm r h)

  find_id-perm :
      {xs ys : List E} (a : I)
      → Permᴰ xs ys
      → IsNodup (map id_func xs)
      → find_id a xs ≡ find_id a ys
  unfolding find_id contains
  find_id-perm a Permᴰ.nil h = refl
  find_id-perm a (Permᴰ.cons p r) (q, h) = ground (arith, find_id-perm a r h)
  find_id-perm a (Permᴰ.swap p q) h = ground arith
  find_id-perm a (Permᴰ.trans r s) h = find_id-perm a r h ∙ find_id-perm a s (IsNodup-perm r h)

values-perm : {K V : Type 0} {d d' : Dict K V} → Permᴰ d d' → Permᴰ (values d) (values d')
values-perm Permᴰ.nil = Permᴰ.nil
values-perm (Permᴰ.cons p r) = Permᴰ.cons (ap (λ e. e.1) p) (values-perm r)
values-perm (Permᴰ.swap p q) = Permᴰ.swap (ap (λ e. e.1) p) (ap (λ e. e.1) q)
values-perm (Permᴰ.trans r s) = Permᴰ.trans (values-perm r) (values-perm s)

-- The elements of a slice that may be missing.
abbrev pub under : {E : Type 0} → Option (Slice E) → List E
under none = []
under (some nn) = elements nn

module _ {K E I : Type 0} ⦃k : Eq K⦄ ⦃i : Eq I⦄ (it : Iteration)
    (c : AtomicListRestockCache K E I) where
  open c use {id_func}

  -- On a cache with data `listAll` returns, in whatever order the map is visited: no two elements of
  -- the result have one id, and under each id stands the first element that the keys' slices hold
  -- under it.
  list_all-find_id :
      (m : Dict K (Slice E)) (ks : List K)
      → c.cached ≡ some m
      → (r : List E) × (list_all it c ks ≡ ok (some r))
        × IsNodup (map id_func r)
        × ((a : I) → find_id id_func a r ≡ find_id id_func a (slices_of id_func m ks))
  unfolding list_all lookup
  list_all-find_id m ks e = (
    values (it.visit (I × E) d),
    rw (e, collect-slices_of id_func m ks []),
    IsNodup-perm id_func (Permᴰ.symm p) fresh,
    λ a.
        sym (find_id-perm id_func a (Permᴰ.symm p) fresh)
        ∙ sym (lookup_of_IsKeyed id_func a d keyed)
        ∙ lookup-add_all id_func a (slices_of id_func m ks) [],
  )
    where
      d : Dict I E
      d = add_all id_func (slices_of id_func m ks) []

      p : Permᴰ (values (it.visit (I × E) d)) (values d)
      p = values-perm (it.visit-perm (I × E) d)

      keyed : IsKeyed id_func d
      keyed = add_all-IsKeyed id_func (slices_of id_func m ks) [] tt

      fresh : IsNodup (map id_func (values d))
      fresh =
          rw (sym (keys_of_IsKeyed id_func d keyed))
            (add_all-IsNodup id_func (slices_of id_func m ks) [] tt)

  pub list_keys_run :
      (m : Dict K (Slice E)) (ks : List K)
      → c.cached ≡ some m
      → (s : Slice E) × (list_keys it c ks ≡ ok s)
        × ((a : I) → find_id id_func a (elements s) ≡ find_id id_func a (slices_of id_func m ks))
        × (((x : K) → IsNodup (map id_func (under (lookup x m))))
            → IsNodup (map id_func (elements s)))
  unfolding list_keys slices_of list
  list_keys_run m [] e = (none, refl, λ a. refl, λ h. tt)
  list_keys_run m (x ∷ []) e = elim (Option-cases (lookup x m)) [
    | inl missing ↦ (none, ground arith, λ a. rw (missing, slices_of), λ h. tt)
    | inr (nn, found) ↦ (
      nn,
      ground arith,
      λ a. rw (found, slices_of, append-nil),
      λ h. subst (λ o. IsNodup (map id_func (under o))) found (h x),
    )
  ]
  list_keys_run m (x ∷ y ∷ ks) e =
      let (r, returned, fresh, same) = list_all-find_id m (x ∷ y ∷ ks) e in
      (some r, returned, same, λ h. fresh)

  -- `List`, for any number of keys: on a cache with data it returns, and under each id its result holds
  -- the first element that the keys' slices hold under it.
  pub list_keys-find_id :
      (m : Dict K (Slice E)) (ks : List K)
      → c.cached ≡ some m
      → (s : Slice E) × (list_keys it c ks ≡ ok s)
        × ((a : I) → find_id id_func a (elements s) ≡ find_id id_func a (slices_of id_func m ks))
  list_keys-find_id m ks e =
      let (s, returned, same, _) = list_keys_run m ks e in (s, returned, same)

  -- `List` panics exactly on two or more keys before the first `Restock`.
  pub list_keys-panic_iff :
      (ks : List K)
      → (list_keys it c ks ≡ panic nil_dereference) ↔ ((c.cached ≡ none) × (2 ≤ length ks))
  unfolding list_keys list_all
  list_keys-panic_iff [] = ground arith
  list_keys-panic_iff (x ∷ []) = ground arith
  list_keys-panic_iff (x ∷ y ∷ ks) = elim (Option-cases c.cached) [
    | inl e ↦ (λ h. (e, omega arith), λ h. rw (e, collect))
    | inr (m, e) ↦ let (r, returned, _, _) = list_all-find_id m (x ∷ y ∷ ks) e in (λ h. cc, λ h. cc)
  ]
