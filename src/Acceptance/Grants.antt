-- ===== src/Acceptance/Grants.antt =====
-- What the steps of the acceptance tests grant, by the objects that they create.
pub mod Given
use Prim.Native.String
use namespace_lister.Base.{
  ℕ, String, String_dec, Bool, true, false, not, ◌&&◌, ◌||◌, ◌≡◌, refl, ap, sym, ◌∙◌, ◌⊎◌, inl, inr,
  Option, Option-cases, none, some, List, [], ◌∷◌, ◌++◌, map, any, contains, ◌==◌, string_eq, arith,
  elements, length,
}
use namespace_lister.Base.Dict.{lookup}
use namespace_lister.CacheOptions.{
  namespace_use_for_access_label_key, namespace_use_for_access_label_value_true,
}
use namespace_lister.Kube.{Namespace, Subject, subject_eq, RoleBinding, StringMap, rbac_group_name}
use namespace_lister.Policies.{
  Objects, has_label, find_role, named, rules_found, role_allows, granted,
}
use namespace_lister.Transform.Laws.{allows}
use namespace_lister.UserInfo.{as_subject}
use namespace_lister.Acceptance.{Context, user, namespaces_of}
use namespace_lister.Acceptance.Steps.{
  Cluster, Created, created_namespace, created_role_binding, created_cluster_role_binding, meta_of,
  granting, create, subject_has_access_to_n_namespaces, has_labeled_cluster_scoped_permission,
  has_cluster_scoped_permission, bind_cluster_role,
}
use namespace_lister.Acceptance.Steps.Prepared.{
  with_grants, Prepares, subject_has_access_to_n_namespaces-Prepares,
}

abbrev pub namespaces_made : List Created → List Namespace
namespaces_made [] = []
namespaces_made (created_namespace n ∷ made) = n ∷ namespaces_made made
namespaces_made (created_role_binding b ∷ made) = namespaces_made made
namespaces_made (created_cluster_role_binding b ∷ made) = namespaces_made made

abbrev pub role_bindings_made : List Created → List RoleBinding
role_bindings_made [] = []
role_bindings_made (created_namespace n ∷ made) = role_bindings_made made
role_bindings_made (created_role_binding b ∷ made) = b ∷ role_bindings_made made
role_bindings_made (created_cluster_role_binding b ∷ made) = role_bindings_made made

abbrev pub cluster_role_bindings_made : List Created → List RoleBinding
cluster_role_bindings_made [] = []
cluster_role_bindings_made (created_namespace n ∷ made) = cluster_role_bindings_made made
cluster_role_bindings_made (created_role_binding b ∷ made) = cluster_role_bindings_made made
cluster_role_bindings_made (created_cluster_role_binding b ∷ made) =
    b ∷ cluster_role_bindings_made made

-- The objects of a cluster with those that the steps have created.
abbrev pub with_created : Objects → List Created → Objects
with_created o made = record o {
  namespaces = o.namespaces ++ namespaces_made made;
  role_bindings = o.role_bindings ++ role_bindings_made made;
  cluster_role_bindings = o.cluster_role_bindings ++ cluster_role_bindings_made made;
}

pub any-append :
    {A : Type 0} (p : A → Bool) (xs ys : List A) → any p (xs ++ ys) ≡ (any p xs || any p ys)
any-append p [] ys = refl
any-append p (x ∷ xs) ys = ground (arith, any-append p xs ys)

role_bindings_made-append :
    (made more : List Created)
    → role_bindings_made (made ++ more) ≡ role_bindings_made made ++ role_bindings_made more
role_bindings_made-append [] more = refl
role_bindings_made-append (created_namespace n ∷ made) more = role_bindings_made-append made more
role_bindings_made-append (created_role_binding b ∷ made) more =
    ap (λ l. b ∷ l) (role_bindings_made-append made more)
role_bindings_made-append (created_cluster_role_binding b ∷ made) more =
    role_bindings_made-append made more

cluster_role_bindings_made-append :
    (made more : List Created)
    → cluster_role_bindings_made (made ++ more)
      ≡ cluster_role_bindings_made made ++ cluster_role_bindings_made more
cluster_role_bindings_made-append [] more = refl
cluster_role_bindings_made-append (created_namespace n ∷ made) more =
    cluster_role_bindings_made-append made more
cluster_role_bindings_made-append (created_role_binding b ∷ made) more =
    cluster_role_bindings_made-append made more
cluster_role_bindings_made-append (created_cluster_role_binding b ∷ made) more =
    ap (λ l. b ∷ l) (cluster_role_bindings_made-append made more)

module _ (o : Objects) where
  -- The cluster role of the tests lets get every namespace.
  abbrev pub HasNamespaceGet : Type 0
  HasNamespaceGet =
      (name : String)
      → any (allows "get" "" "namespaces" name)
          (rules_found (find_role (named "namespace-get") o.cluster_roles))
        ≡ true

  module _ (name : String) (s : Subject) where
    -- The bindings that count for a grant.
    abbrev pub counts_anywhere : RoleBinding → Bool
    counts_anywhere b =
        has_label namespace_use_for_access_label_key namespace_use_for_access_label_value_true
          b.meta.labels
        && contains b.subjects s
        && role_allows o "" b.role_ref name

    abbrev pub counts_inside : RoleBinding → Bool
    counts_inside b =
        b.meta.namespace == name && contains b.subjects s && role_allows o name b.role_ref name

    -- What the created objects grant beside the others.
    granted-with_created :
        (made : List Created)
        → granted (with_created o made) name s ≡ (
            granted o name s
            || any counts_anywhere (cluster_role_bindings_made made)
            || not (name == "") && any counts_inside (role_bindings_made made))
    unfolding granted role_allows
    granted-with_created made =
        let cluster =
          any-append counts_anywhere o.cluster_role_bindings (cluster_role_bindings_made made) in
        let inside = any-append counts_inside o.role_bindings (role_bindings_made made) in
        rw (cluster, inside) (ground arith)

    pub granted-append :
        (made more : List Created)
        → granted (with_created o (made ++ more)) name s ≡ (
            granted (with_created o made) name s
            || any counts_anywhere (cluster_role_bindings_made more)
            || not (name == "") && any counts_inside (role_bindings_made more))
    granted-append made more =
        granted-with_created (made ++ more)
        ∙ rw
            (
              granted-with_created made,
              role_bindings_made-append made more,
              cluster_role_bindings_made-append made more,
              any-append counts_anywhere (cluster_role_bindings_made made),
              any-append counts_inside (role_bindings_made made),
            )
            (ground arith)

    -- A binding of the tests to their cluster role counts in its own namespace.
    pub any-with_grants :
        HasNamespaceGet
        → (subject : Subject) (new : List Namespace)
        → any counts_inside (role_bindings_made (with_grants subject new))
          ≡ (subject == s && contains (map (λ ns. ns.meta.name) new) name)
    unfolding granting contains role_allows String_dec string_eq
    any-with_grants has subject [] = ground arith
    any-with_grants has subject (ns ∷ new) =
        ground (arith, has name, any-with_grants has subject new)

    pub no_cluster_role_bindings :
        (subject : Subject) (new : List Namespace)
        → cluster_role_bindings_made (with_grants subject new) ≡ []
    no_cluster_role_bindings subject [] = refl
    no_cluster_role_bindings subject (ns ∷ new) = no_cluster_role_bindings subject new
