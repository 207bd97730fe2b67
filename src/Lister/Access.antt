-- ===== src/Lister/Access.antt =====
-- Whom a listing serves: after a completed `synch` a user is given exactly the namespaces that one of
-- the user's subjects may get.
use mathlib.Core.List.{map-append}
use namespace_lister.Base.{
  ◌≡◌, refl, ◌∙◌, ap, subst, sym, String, Bool, true, false, ◌&&◌, Option, none, some, List, [],
  ◌∷◌, map, contains, contains-append, any, ◌==◌, string_eq, arith, Slice, elements, ok, Iteration,
  Option-cases, inl, inr, IsNodup,
}
use namespace_lister.Base.Dict.{lookup}
use namespace_lister.Kube.{Namespace, Subject, subject_eq, core_version}
use namespace_lister.Labels.{
  set_visibility_virtual_label, with_virtual_labels_and_annotations_for_access,
}
use namespace_lister.Labels.Laws.{listed}
use namespace_lister.Subjects.Canonical.{remove_duplicate_subjects_lem}
use namespace_lister.AccessCache.{restock}
use namespace_lister.AccessCache.Listing.{find_id, slices_of, under, list_keys_run}
use namespace_lister.Synch.{
  AccessData, NamespaceCache, Environment, World, attributes_of, slice_at, subjects_for, synch,
}
use namespace_lister.Synch.Content.{accessible, IsUninterrupted, synch-accessible}
use namespace_lister.Lister.{
  success, group_subject, parse_username, subjects, list_namespaces, new_subject_namespace_lister,
}

abbrev pub name_of : Namespace → String
name_of ns = ns.meta.name

-- The locator counts `s` among the subjects that may get the namespace.
abbrev pub may_get : Environment → Subject → Namespace → Bool
may_get env s ns = contains (env.allowed_subjects (attributes_of ns)).0 s

is_some : Option Namespace → Bool
is_some none = false
is_some (some ns) = true

contains-find_id :
    (a : String) (nn : List Namespace)
    → contains (map name_of nn) a ≡ is_some (find_id name_of a nn)
unfolding contains find_id is_some
contains-find_id a [] = refl
contains-find_id a (ns ∷ nn) = ground (arith, contains-find_id a nn)

subjects_parsed :
    (username : String) (groups : List String) (user : Subject)
    → parse_username username ≡ ok user
    → subjects username groups ≡ ok (user ∷ map group_subject groups)
unfolding subjects
subjects_parsed username groups user h = rw h

-- What a cache with data answers.
pub list_namespaces_run :
    (it : Iteration) (cache : NamespaceCache) (c : AccessData) (username : String)
    (groups : List String) (user : Subject)
    → cache.cached ≡ some c
    → cache.id_func ≡ name_of
    → parse_username username ≡ ok user
    → (r : Slice Namespace) × (new_subject_namespace_lister it cache username groups
        ≡ ok (success (record { kind = "NamespaceList"; api_version = core_version; items = r })))
      × ((a : String)
          → find_id name_of a (elements r)
            ≡ find_id name_of a (slices_of name_of c (user ∷ map group_subject groups)))
      × (((s : Subject) → IsNodup (map name_of (under (lookup s c))))
          → IsNodup (map name_of (elements r)))
unfolding new_subject_namespace_lister list_namespaces
list_namespaces_run it cache c username groups user cached named parsed =
    let subs : List Subject = user ∷ map group_subject groups in
    let (r, returned, found, once) = list_keys_run it cache c subs cached in
    (
      r,
      rw (subjects_parsed username groups user parsed, returned),
      subst (λ f. (a : String) → find_id f a (elements r) ≡ find_id f a (slices_of f c subs)) named
          found,
      subst
          (λ f.
            ((s : Subject) → IsNodup (map f (under (lookup s c)))) → IsNodup (map f (elements r)))
          named once,
    )

contains-slices_of :
    (c : AccessData) (subs : List Subject) (a : String)
    → contains (map name_of (slices_of name_of c subs)) a
      ≡ any (λ s. contains (map name_of (elements (slice_at s c))) a) subs
unfolding slices_of contains slice_at
contains-slices_of c [] a = refl
contains-slices_of c (s ∷ subs) a = elim (Option-cases (lookup s c)) [
  | inl missing ↦ rw (missing, slices_of, slice_at) (contains-slices_of c subs a)
  | inr (nn, found) ↦
      rw (found, slices_of, slice_at, map-append, contains-append (map name_of (elements nn)))
        (ground (arith, contains-slices_of c subs a))
]

-- What is found first under the subjects is what is found under one of them.
pub found-any :
    (c : AccessData) (subs : List Subject) (r : Slice Namespace)
    → ((a : String) → find_id name_of a (elements r) ≡ find_id name_of a (slices_of name_of c subs))
    → (a : String)
    → contains (map name_of (elements r)) a
      ≡ any (λ s. contains (map name_of (elements (slice_at s c))) a) subs
found-any c subs r found a =
    contains-find_id a (elements r)
    ∙ ap is_some (found a)
    ∙ sym (contains-find_id a (slices_of name_of c subs))
    ∙ contains-slices_of c subs a

module _ (env : Environment) where
  pub contains-accessible :
      (s : Subject) (a : String) (nn : List Namespace)
      → contains (map name_of (accessible env s nn)) a
        ≡ any (λ ns. ns.meta.name == a && may_get env s ns) nn
  unfolding accessible contains listed set_visibility_virtual_label
      with_virtual_labels_and_annotations_for_access subjects_for
  contains-accessible s a [] = refl
  contains-accessible s a (ns ∷ nn) = ground (
    arith,
    contains-accessible s a nn,
    (remove_duplicate_subjects_lem (env.allowed_subjects (attributes_of ns)).0).0 s,
  )

  any-accessible :
      (c : AccessData) (stored : List Namespace) (subs : List Subject) (a : String)
      → ((s : Subject) → elements (slice_at s c) ≡ accessible env s stored)
      → any (λ s. contains (map name_of (elements (slice_at s c))) a) subs
        ≡ any (λ s. any (λ ns. ns.meta.name == a && may_get env s ns) stored) subs
  any-accessible c stored [] a same = refl
  any-accessible c stored (s ∷ subs) a same =
      ground (arith, same s, contains-accessible s a stored, any-accessible c stored subs a same)

  -- The namespaces listed are by name those that one of the subjects may get.
  abbrev pub ListsAccess : List Namespace → List Subject → Slice Namespace → Type 0
  ListsAccess stored subs r =
      (a : String)
      → contains (map name_of (elements r)) a
        ≡ any (λ s. any (λ ns. ns.meta.name == a && may_get env s ns) stored) subs

  -- What is found first under the subjects is what one of them may get.
  pub found-ListsAccess :
      (c : AccessData) (stored : List Namespace) (subs : List Subject) (r : Slice Namespace)
      → ((s : Subject) → elements (slice_at s c) ≡ accessible env s stored)
      → ((a : String)
          → find_id name_of a (elements r) ≡ find_id name_of a (slices_of name_of c subs))
      → ListsAccess stored subs r
  found-ListsAccess c stored subs r same found a =
      found-any c subs r found a ∙ any-accessible c stored subs a same

  -- What a cache answers that holds the data of all namespaces.
  pub list_namespaces-ListsAccess :
      (it : Iteration) (cache : NamespaceCache) (c : AccessData) (stored : List Namespace)
      (username : String) (groups : List String) (user : Subject)
      → cache.cached ≡ some c
      → cache.id_func ≡ name_of
      → ((s : Subject) → elements (slice_at s c) ≡ accessible env s stored)
      → parse_username username ≡ ok user
      → (r : Slice Namespace) × (new_subject_namespace_lister it cache username groups
          ≡ ok (success (record { kind = "NamespaceList"; api_version = core_version; items = r })))
        × ListsAccess stored (user ∷ map group_subject groups) r
  list_namespaces-ListsAccess it cache c stored username groups user cached named same parsed =
      let subs : List Subject = user ∷ map group_subject groups in
      let (r, returned, found, _) =
        list_namespaces_run it cache c username groups user cached named parsed in
      (r, returned, found-ListsAccess c stored subs r same found)

  pub id_func-synch : (w : World) → (synch env w).0.cache.id_func ≡ w.cache.id_func
  unfolding synch restock
  id_func-synch w = ground arith

  -- After a run of `synch` that nothing interrupts, every user whose name can be parsed is answered,
  -- in whatever order maps are visited: the list names exactly the namespaces that the user, or one of
  -- the user's groups, may get.
  pub list_namespaces-may_get :
      (it : Iteration) (w : World) (username : String) (groups : List String) (user : Subject)
      → env.list_error ≡ none
      → IsUninterrupted env
      → w.cache.id_func ≡ name_of
      → parse_username username ≡ ok user
      → (r : Slice Namespace) × (new_subject_namespace_lister it
            (synch env w).0.cache
            username
            groups
          ≡ ok (success (record { kind = "NamespaceList"; api_version = core_version; items = r })))
        × ListsAccess w.stored (user ∷ map group_subject groups) r
  list_namespaces-may_get it w username groups user fine live named parsed =
      let (c, _, _, cached, same) = synch-accessible env w fine live in
      list_namespaces-ListsAccess it (synch env w).0.cache c w.stored username groups user cached
        (id_func-synch w ∙ named) same parsed
