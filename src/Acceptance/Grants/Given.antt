-- ===== src/Acceptance/Grants/Given.antt =====
-- The steps of the acceptance tests that give access, by what the cluster grants before and after.
use Prim.Native.String
use namespace_lister.Base.{
  false, subst, not, sym, ℕ, String, String_dec, not, ◌&&◌, ◌||◌, ◌≡◌, refl, ap, ◌∙◌, ◌⊎◌, inl, inr,
  Option, Option-cases, none, some, List, [], ◌∷◌, ◌++◌, map, contains, ◌==◌, string_eq, arith,
  elements, length,
}
use namespace_lister.Base.Dict.{lookup}
use namespace_lister.CacheOptions.{
  namespace_use_for_access_label_key, namespace_use_for_access_label_value_true,
}
use namespace_lister.Kube.{Namespace, Subject, subject_eq, RoleBinding, StringMap, rbac_group_name}
use namespace_lister.Policies.{Objects, has_label, role_allows, granted}
use namespace_lister.UserInfo.{as_subject}
use namespace_lister.Acceptance.{Context, user, namespaces_of}
use namespace_lister.Acceptance.Steps.{
  Cluster, Created, created_cluster_role_binding, meta_of, create,
  subject_has_access_to_n_namespaces, has_labeled_cluster_scoped_permission,
  has_cluster_scoped_permission, bind_cluster_role,
}
use namespace_lister.Acceptance.Steps.Prepared.{
  with_grants, Prepares, subject_has_access_to_n_namespaces-Prepares,
}
use namespace_lister.Acceptance.Grants.{
  with_created, HasNamespaceGet, granted-append, any-with_grants, no_cluster_role_bindings,
}

only_named :
    (name : String) (names : List String)
    → contains names "" ≡ false
    → (not (name == "") && contains names name) ≡ contains names name
only_named name names h = elim (string_eq.dec name "") [
  | yes empty ↦
      subst (λ n. (not (n == "") && contains names n) ≡ contains names n) (sym empty)
        (ground (arith, h))
  | no other ↦ ground arith
]

module _ (o : Objects) where
  -- What namespaces with bindings of a subject grant.
  pub granted-with_grants :
      HasNamespaceGet o
      → (subject : Subject) (made : List Created) (new : List Namespace)
      → contains (map (λ ns. ns.meta.name) new) "" ≡ false
      → (name : String) (s : Subject)
      → granted (with_created o (made ++ with_grants subject new)) name s ≡ (
          granted (with_created o made) name s
          || subject == s && contains (map (λ ns. ns.meta.name) new) name)
  granted-with_grants has subject made new named name s =
      granted-append o name s made (with_grants subject new)
      ∙ rw (no_cluster_role_bindings o name s subject new, any-with_grants o name s has subject new)
          (ground (arith, only_named name (map (λ ns. ns.meta.name) new) named))

  module _ {Builder TlsConfig : Type 0} where
    -- A step that succeeds adds as many namespaces to the context as are asked for, and makes grants of
    -- these to the subject and no others; one that fails leaves the context as it is.
    abbrev pub Grants :
        Subject
        → ℕ
        → Context Builder TlsConfig
        → List Created
        → Context Builder TlsConfig × List Created × Option String
        → Type 0
    Grants subject number ctx made (ctx', made', some e) = ctx' ≡ ctx
    Grants subject number ctx made (ctx', made', none) =
        (new : List Namespace) × (elements (namespaces_of ctx')
          ≡ elements (namespaces_of ctx) ++ new)
        × (length new ≡ number)
        × ((name : String) (s : Subject)
            → granted (with_created o made') name s ≡ (
                granted (with_created o made) name s
                || subject == s && contains (map (λ ns. ns.meta.name) new) name))

    Grants-Prepares :
        HasNamespaceGet o
        → (subject : Subject) (number : ℕ) (ctx : Context Builder TlsConfig) (made : List Created)
          (r : Context Builder TlsConfig × List Created × Option String)
        → Prepares subject number ctx made r
        → Grants subject number ctx made r
    Grants-Prepares has subject number ctx made (ctx', made', some e) same = same
    Grants-Prepares has subject number ctx made (ctx', made', none)
          (new, listed, many, once, named, made_so, stays, run, created) =
        (
          new,
          listed,
          many,
          λ name s.
              ap (λ l. granted (with_created o l) name s) created
              ∙ granted-with_grants has subject made new named name s,
        )

    -- The step that gives a subject access to namespaces grants that and no more. Whatever the cluster
    -- answers, it either fails and leaves the context as it is, or adds as many new namespaces as are
    -- asked for to the context's, and whom the cluster's objects grant what is then as before but for
    -- these namespaces and this subject: it is granted each of them. The condition: the cluster role of
    -- the tests has a rule that lists getting every namespace.
    pub subject_has_access_to_n_namespaces-Grants :
        HasNamespaceGet o
        → (cluster : Cluster) (subject : Subject) (number : ℕ) (ctx : Context Builder TlsConfig)
          (made : List Created)
        → Grants subject number ctx made
            (subject_has_access_to_n_namespaces cluster subject number ctx made)
    subject_has_access_to_n_namespaces-Grants has cluster subject number ctx made =
        Grants-Prepares has subject number ctx made _
          (subject_has_access_to_n_namespaces-Prepares cluster subject number ctx made)

    module _ (cluster : Cluster) (ctx : Context Builder TlsConfig) (made : List Created) where
      -- The binding that the steps on a cluster-scoped permission make.
      abbrev Binds : Option StringMap → List Created → Type 0
      Binds labels made' =
          (b : RoleBinding) × (made' ≡ made ++ created_cluster_role_binding b ∷ [])
          × (b.meta.labels ≡ labels)
          × (b.subjects ≡ as_subject (user ctx) ∷ [])
          × (b.role_ref.kind ≡ "ClusterRole")
          × (b.role_ref.name ≡ (cluster.get_cluster_role "namespace-get").0)

      bind_cluster_role_lem :
          (labels : Option StringMap)
          → let made' = (bind_cluster_role cluster labels ctx made).1 in
            (made' ≡ made) ⊎ Binds labels made'
      unfolding bind_cluster_role create
      bind_cluster_role_lem labels =
          let b : RoleBinding = record {
            meta =
                meta_of (String.◌++◌ "test-" (String.◌++◌ (user ctx).name "-get-namespaces")) ""
                  labels;
            role_ref = record {
              kind = "ClusterRole";
              api_group = rbac_group_name;
              name = (cluster.get_cluster_role "namespace-get").0;
            };
            subjects = as_subject (user ctx) ∷ [];
          } in
          elim (Option-cases cluster.build_error) [
            | inr (e, broken) ↦ rw (bind_cluster_role, broken) (inl refl)
            | inl built ↦ elim (Option-cases (cluster.get_cluster_role "namespace-get").1) [
              | inr (e, missing) ↦ rw (bind_cluster_role, built, missing) (inl refl)
              | inl found ↦
                  elim (Option-cases (cluster.create_error made (created_cluster_role_binding b))) [
                    | inr (e, failed) ↦
                        rw (bind_cluster_role, built, found, create, failed) (inl refl)
                    | inl fine ↦
                        rw (bind_cluster_role, built, found, create, fine)
                          (inr (b, refl, refl, refl, refl, refl))
                  ]
            ]
          ]

      bound-granted :
          HasNamespaceGet o
          → (cluster.get_cluster_role "namespace-get").0 ≡ "namespace-get"
          → (labels : Option StringMap) (made' : List Created) → Binds labels made'
          → (name : String) (s : Subject)
          → granted (with_created o made') name s ≡ (
              granted (with_created o made) name s
              || has_label namespace_use_for_access_label_key
                  namespace_use_for_access_label_value_true labels
                && as_subject (user ctx) == s)
      unfolding contains role_allows String_dec string_eq
      bound-granted has got labels made' (b, added, labelled, bound, kind, ref) name s =
          ap (λ l. granted (with_created o l) name s) added
          ∙ granted-append o name s made (created_cluster_role_binding b ∷ [])
          ∙ rw (labelled, bound, kind, ref, got) (ground (arith, has name))

      -- The steps on a cluster-scoped permission, by the label. Whatever the cluster answers, the step
      -- without the label changes nothing in whom the cluster's objects grant what. The step with the
      -- label either creates nothing, or grants the user of the context every namespace, and nothing
      -- else to anybody. The conditions: the cluster role of the tests has a rule that lists getting
      -- every namespace, and reading this role fills in its own name.
      pub cluster_scoped_permission-granted :
          HasNamespaceGet o
          → (cluster.get_cluster_role "namespace-get").0 ≡ "namespace-get"
          → let plain = (has_cluster_scoped_permission cluster ctx made).1 in
            let labelled = (has_labeled_cluster_scoped_permission cluster ctx made).1 in
            ((name : String) (s : Subject)
              → granted (with_created o plain) name s ≡ granted (with_created o made) name s)
            × ((labelled ≡ made)
                ⊎ ((name : String) (s : Subject)
                    → granted (with_created o labelled) name s
                      ≡ (granted (with_created o made) name s || as_subject (user ctx) == s)))
      unfolding has_cluster_scoped_permission has_labeled_cluster_scoped_permission lookup
          String_dec string_eq
      cluster_scoped_permission-granted has got =
          let access : Option StringMap = some (
            (namespace_use_for_access_label_key, namespace_use_for_access_label_value_true) ∷ []) in
          (
            λ name s. elim (bind_cluster_role_lem none) [
              | inl same ↦ ap (λ l. granted (with_created o l) name s) same
              | inr binds ↦ bound-granted has got none _ binds name s ∙ ground arith
            ],
            elim (bind_cluster_role_lem access) [
              | inl same ↦ inl same
              | inr binds ↦ inr (λ name s. bound-granted has got access _ binds name s)
            ],
          )
