-- ===== src/Lister/Presents.antt =====
-- What the namespaces in an answer are, and that none is listed twice.
use mathlib.Core.List.{Memᴰ}
use mathlib.Core.List.Memᴰ.{head, tail}
use namespace_lister.Base.{
  eq_refl, ◌≡◌, refl, sym, ap, subst, ◌∙◌, String, true, false, Option, none, some, List, [], ◌∷◌,
  map, All, All-append, IsNodup, contains, ◌==◌, string_eq, arith, Slice, elements, ok, Iteration,
  Option-cases, Bool-cases, inl, inr,
}
use namespace_lister.Base.Dict.{lookup}
use namespace_lister.Kube.{Namespace, Subject, subject_eq, core_version}
use namespace_lister.Labels.{
  set_visibility_virtual_label, with_virtual_labels_and_annotations_for_access,
}
use namespace_lister.Labels.Laws.{listed}
use namespace_lister.Subjects.Canonical.{remove_duplicate_subjects_lem}
use namespace_lister.AccessCache.Listing.{find_id, slices_of, under}
use namespace_lister.Synch.{
  attributes_of, AccessData, Environment, World, slice_at, subjects_for, synch,
}
use namespace_lister.Synch.Content.{accessible, IsUninterrupted, synch-accessible}
use namespace_lister.Lister.{success, group_subject, parse_username, new_subject_namespace_lister}
use namespace_lister.Lister.Access.{
  ListsAccess, found-ListsAccess, name_of, may_get, list_namespaces_run, id_func-synch,
}

find_id-here :
    (a : String) (n : Namespace) (nn : List Namespace)
    → (name_of n == a) ≡ true
    → find_id name_of a (n ∷ nn) ≡ some n
unfolding find_id
find_id-here a n nn same = rw (find_id, same) refl

find_id-there :
    (a : String) (n : Namespace) (nn : List Namespace)
    → (name_of n == a) ≡ false
    → find_id name_of a (n ∷ nn) ≡ find_id name_of a nn
unfolding find_id
find_id-there a n nn differs = rw (find_id, differs) refl

or_this : Namespace → Option Namespace → Namespace
or_this n none = n
or_this n (some m) = m

find_id-All :
    (P : Namespace → Type 0) (a : String) (nn : List Namespace) (n : Namespace)
    → All P nn
    → find_id name_of a nn ≡ some n
    → P n
unfolding find_id or_this
find_id-All P a [] n h e = absurd (cc e)
find_id-All P a (x ∷ nn) n (p, h) e = elim (Bool-cases (name_of x == a)) [
  | inl same ↦ subst P (ap (or_this x) (sym (find_id-here a x nn same) ∙ e)) p
  | inr differs ↦ find_id-All P a nn n h (sym (find_id-there a x nn differs) ∙ e)
]

-- What is found under the name of an element is the element.
abbrev pub Found : List Namespace → Namespace → Type 0
Found nn n = find_id name_of (name_of n) nn ≡ some n

Found-cons :
    (x : Namespace) (nn ns : List Namespace)
    → contains (map name_of ns) (name_of x) ≡ false
    → All (Found nn) ns
    → All (Found (x ∷ nn)) ns
unfolding contains
Found-cons x nn [] h k = tt
Found-cons x nn (n ∷ ns) h (p, k) =
    (find_id-there (name_of n) x nn (ground arith) ∙ p, Found-cons x nn ns (ground arith) k)

pub All-Found : (nn : List Namespace) → IsNodup (map name_of nn) → All (Found nn) nn
All-Found [] h = tt
All-Found (x ∷ nn) (fresh, h) =
    (find_id-here (name_of x) x nn (eq_refl (name_of x)), Found-cons x nn nn fresh (All-Found nn h))

-- Elements with different names that are all found in another list have what all of that list have.
All-find_id :
    (P : Namespace → Type 0) (xs ys zs : List Namespace)
    → ((a : String) → find_id name_of a xs ≡ find_id name_of a ys)
    → All P ys
    → All (Found xs) zs
    → All P zs
All-find_id P xs ys [] same h k = tt
All-find_id P xs ys (z ∷ zs) same h (p, k) =
    (find_id-All P (name_of z) ys z h (sym (same (name_of z)) ∙ p), All-find_id P xs ys zs same h k)

pub All-map :
    {P Q : Namespace → Type 0}
    → ((n : Namespace) → P n → Q n)
    → (nn : List Namespace) → All P nn
    → All Q nn
All-map f [] h = tt
All-map f (n ∷ nn) (p, h) = (f n p, All-map f nn h)

module _ (env : Environment) where
  -- A listed namespace is one of the stored ones, as it is presented for one of the subjects that may
  -- get it.
  abbrev pub Presents : List Namespace → List Subject → Namespace → Type 0
  Presents stored subs n =
      (s : Subject) × (ns : Namespace) × Memᴰ s subs
      × Memᴰ ns stored
      × (may_get env s ns ≡ true)
      × (n ≡ listed ns (subjects_for env ns) s)

  -- The same for one subject.
  abbrev Shows : List Namespace → Subject → Namespace → Type 0
  Shows stored s n =
      (ns : Namespace) × Memᴰ ns stored
      × (may_get env s ns ≡ true)
      × (n ≡ listed ns (subjects_for env ns) s)

  accessible-Shows : (s : Subject) (nn : List Namespace) → All (Shows nn s) (accessible env s nn)
  unfolding accessible subjects_for
  accessible-Shows s [] = tt
  accessible-Shows s (ns ∷ nn) =
      let rest : All (Shows (ns ∷ nn) s) (accessible env s nn) =
        All-map (λ n (m, mem, may, e). (m, tail mem, may, e)) (accessible env s nn)
          (accessible-Shows s nn) in
      elim (Bool-cases (contains (subjects_for env ns) s)) [
        | inl held ↦ rw held (
          (
            ns,
            head refl,
            sym ((remove_duplicate_subjects_lem (env.allowed_subjects (attributes_of ns)).0).0 s)
                ∙ held,
            refl,
          ),
          rest,
        )
        | inr missing ↦ rw missing rest
      ]

  contains-map-accessible :
      (s : Subject) (a : String) (nn : List Namespace)
      → contains (map name_of nn) a ≡ false
      → contains (map name_of (accessible env s nn)) a ≡ false
  unfolding accessible contains listed set_visibility_virtual_label
      with_virtual_labels_and_annotations_for_access
  contains-map-accessible s a [] h = refl
  contains-map-accessible s a (ns ∷ nn) h =
      ground (arith, contains-map-accessible s a nn (ground arith))

  accessible-IsNodup :
      (s : Subject) (nn : List Namespace)
      → IsNodup (map name_of nn)
      → IsNodup (map name_of (accessible env s nn))
  unfolding accessible listed set_visibility_virtual_label
      with_virtual_labels_and_annotations_for_access
  accessible-IsNodup s [] h = tt
  accessible-IsNodup s (ns ∷ nn) (fresh, h) =
      let rest = accessible-IsNodup s nn h in
      elim (Bool-cases (contains (subjects_for env ns) s)) [
        | inl held ↦ rw held (contains-map-accessible s (name_of ns) nn fresh, rest)
        | inr missing ↦ rw missing rest
      ]

  under-slice_at : (s : Subject) (c : AccessData) → under (lookup s c) ≡ elements (slice_at s c)
  unfolding slice_at
  under-slice_at s c = elim (Option-cases (lookup s c)) [
    | inl missing ↦ rw (slice_at, missing) refl
    | inr (nn, found) ↦ rw (slice_at, found) refl
  ]

  slices_of-Presents :
      (c : AccessData) (stored : List Namespace)
      → ((s : Subject) → elements (slice_at s c) ≡ accessible env s stored)
      → (subs : List Subject) → All (Presents stored subs) (slices_of name_of c subs)
  unfolding slices_of
  slices_of-Presents c stored same [] = tt
  slices_of-Presents c stored same (s ∷ subs) =
      let rest : All (Presents stored (s ∷ subs)) (slices_of name_of c subs) =
        All-map (λ n (t, ns, mem, stays, may, e). (t, ns, tail mem, stays, may, e))
          (slices_of name_of c subs) (slices_of-Presents c stored same subs) in
      let first : All (Presents stored (s ∷ subs)) (under (lookup s c)) =
        subst (All (Presents stored (s ∷ subs))) (sym (under-slice_at s c ∙ same s)) (
          All-map (λ n (ns, stays, may, e). (s, ns, head refl, stays, may, e))
            (accessible env s stored) (accessible-Shows s stored)) in
      elim (Option-cases (lookup s c)) [
        | inl missing ↦ rw (slices_of, missing) rest
        | inr (nn, found) ↦
            rw (slices_of, found)
              (All-append (Presents stored (s ∷ subs)) (elements nn) (slices_of name_of c subs)
                (subst (λ o. All (Presents stored (s ∷ subs)) (under o)) found first) rest)
      ]

  -- After a run of `synch` that nothing interrupts, where the stored namespaces differ in their names,
  -- every user whose name can be parsed is answered, in whatever order maps are visited: the list
  -- names exactly the namespaces that the user or one of the groups may get, none twice, and each one
  -- listed is a stored namespace that one of these subjects may get, with the visibility label and the
  -- access labels and annotations that are written for that subject, and otherwise unchanged.
  pub list_namespaces-Presents :
      (it : Iteration) (w : World) (username : String) (groups : List String) (user : Subject)
      → env.list_error ≡ none
      → IsUninterrupted env
      → w.cache.id_func ≡ name_of
      → IsNodup (map name_of w.stored)
      → parse_username username ≡ ok user
      → (r : Slice Namespace) × (new_subject_namespace_lister it
            (synch env w).0.cache
            username
            groups
          ≡ ok (success (record { kind = "NamespaceList"; api_version = core_version; items = r })))
        × ListsAccess env w.stored (user ∷ map group_subject groups) r
        × IsNodup (map name_of (elements r))
        × All (Presents w.stored (user ∷ map group_subject groups)) (elements r)
  list_namespaces-Presents it w username groups user fine live named distinct parsed =
      let subs : List Subject = user ∷ map group_subject groups in
      let (c, _, _, cached, same) = synch-accessible env w fine live in
      let (r, returned, found, once) =
        list_namespaces_run it (synch env w).0.cache c username groups user cached
          (id_func-synch env w ∙ named) parsed in
      let fresh = once (λ s.
        subst (λ l. IsNodup (map name_of l)) (sym (under-slice_at s c ∙ same s))
          (accessible-IsNodup s w.stored distinct)) in
      (
        r,
        returned,
        found-ListsAccess env c w.stored subs r same found,
        fresh,
        All-find_id (Presents w.stored subs) (elements r) (slices_of name_of c subs) (elements r)
            found (slices_of-Presents c w.stored same subs) (All-Found (elements r) fresh),
      )
