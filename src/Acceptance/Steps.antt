-- ===== src/Acceptance/Steps.antt =====
-- acceptance/pkg/suite/steps.go: the steps that create namespaces and grants in the cluster.
pub mod Prepared
use Prim.Native.String
use namespace_lister.Base.{
  ℕ, zero, suc, String, Option, none, some, List, [], ◌∷◌, ◌++◌, Slice, push,
}
use namespace_lister.Base.Decimal.{itoa, replace_all}
use namespace_lister.Kube.{
  RoleRef, RoleBinding, StringMap, ObjectMeta, Namespace, Subject, rbac_group_name,
}
use namespace_lister.UserInfo.{UserInfo, as_subject, user_info_from_username}
use namespace_lister.Acceptance.{Context, with_user, user, with_namespaces, namespaces_of, run_id}

-- An object that a step creates.
pub data Created : Type 0 where
  created_namespace : Namespace → Created
  created_role_binding created_cluster_role_binding : RoleBinding → Created

-- What the cluster answers: the error of `BuildDefaultHostClient`, that of `Create` for an object
-- after those created before, and the name that `Get` of a cluster role fills in, with its error.
pub record Cluster : Type 0 where
  pub build_error : Option String
  pub create_error : List Created → Created → Option String
  pub get_cluster_role : String → String × Option String

abbrev pub meta_of : String → String → Option StringMap → ObjectMeta
meta_of name namespace labels = record {
  name = name;
  namespace = namespace;
  labels = labels;
  annotations = none;
  managed_fields = [];
}

-- the namespaces of the tests
unfoldable pub test_namespace : String → String → Namespace
test_namespace run name = record {
  meta = meta_of name "" (
      some (
        ("konflux.ci/type", "user")
        ∷ ("namespace-lister/scope", "acceptance-tests")
        ∷ ("namespace-lister/test-run", run)
        ∷ []));
  spec = record { finalizers = [] };
  status = record { phase = ""; conditions = [] };
}

-- `fmt.Sprintf("run-%s-%d-%d", run, tn, i)`
unfoldable pub tenant_name : String → ℕ → ℕ → String
tenant_name run tn i =
    String.◌++◌ "run-"
      (String.◌++◌ run (String.◌++◌ "-" (String.◌++◌ (itoa tn) (String.◌++◌ "-" (itoa i)))))

-- `fmt.Sprintf("run-%s-%s-%d", run, strings.ReplaceAll(subject.Name, ":", "-"), i)`
unfoldable pub granted_name : String → Subject → ℕ → String
granted_name run subject i = String.◌++◌ "run-" (
    String.◌++◌ run
      (String.◌++◌ "-" (String.◌++◌ (replace_all 58 "-" subject.name) (String.◌++◌ "-" (itoa i)))))

-- the binding of the subject in the namespace of a name
unfoldable pub granting : Subject → String → RoleBinding
granting subject name = record {
  meta = meta_of name name none;
  role_ref = record { kind = "ClusterRole"; api_group = rbac_group_name; name = "namespace-get" };
  subjects = subject ∷ [];
}

-- A step that may create objects: it returns the context, and an error if it fails.
abbrev pub Preparation : Type 0 → Type 0 → Type 0
Preparation Builder TlsConfig =
    Context Builder TlsConfig
    → List Created
    → Context Builder TlsConfig × List Created × Option String

-- What is returned after `if err != nil`, or what follows.
abbrev pub or_error :
    Slice Namespace
    → List Created × Option String
    → (List Created → Slice Namespace × List Created × Option String)
    → Slice Namespace × List Created × Option String
or_error nn (made, some e) follow = (nn, made, some e)
or_error nn (made, none) follow = follow made

module _ (cluster : Cluster) where
  -- `Create`, after the objects that were created before
  unfoldable pub create : Created → List Created → List Created × Option String
  create object made = elim (cluster.create_error made object) [
    | none ↦ (made ++ object ∷ [], none)
    | some e ↦ (made, some e)
  ]

  -- the loop of `NTenantNamespacesExist`, with the rounds that are left
  unfoldable pub create_tenants : String → ℕ → ℕ → ℕ → List Created → List Created × Option String
  unfolding create test_namespace tenant_name
  create_tenants run tn zero i made = (made, none)
  create_tenants run tn (suc limit) i made =
      let (made', err) =
        create (created_namespace (test_namespace run (tenant_name run tn i))) made in
      elim err [ some e ↦ (made', some e) | none ↦ create_tenants run tn limit (suc i) made' ]

  -- the loop of `subjectHasAccessToNNamespaces`, with the rounds that are left
  unfoldable pub create_granted :
      Subject
      → String
      → ℕ
      → ℕ
      → Slice Namespace
      → List Created
      → Slice Namespace × List Created × Option String
  unfolding create test_namespace granted_name granting
  create_granted subject run zero i nn made = (nn, made, none)
  create_granted subject run (suc number) i nn made =
      let n : Namespace = test_namespace run (granted_name run subject i) in
      or_error nn (create (created_namespace n) made) λ made'.
        or_error nn
          (create (created_role_binding (granting subject (granted_name run subject i))) made')
          λ made''. create_granted subject run number (suc i) (push nn n) made''

  module _ {Builder TlsConfig : Type 0} where
    -- `NTenantNamespacesExist`, at the time `tn` in seconds
    unfoldable pub n_tenant_namespaces_exist : ℕ → ℕ → Preparation Builder TlsConfig
    unfolding create_tenants run_id
    n_tenant_namespaces_exist tn limit ctx made = elim cluster.build_error [
      | some e ↦ (ctx, made, some e)
      | none ↦ let (made', err) = create_tenants (run_id ctx) tn limit 0 made in (ctx, made', err)
    ]

    -- `subjectHasAccessToNNamespaces`
    unfoldable pub subject_has_access_to_n_namespaces : Subject → ℕ → Preparation Builder TlsConfig
    unfolding create_granted run_id namespaces_of with_namespaces
    subject_has_access_to_n_namespaces subject number ctx made = elim cluster.build_error [
      | some e ↦ (ctx, made, some e)
      | none ↦
          let (nn, made', err) =
            create_granted subject (run_id ctx) number 0 (namespaces_of ctx) made in
          elim err [ some e ↦ (ctx, made', some e) | none ↦ (with_namespaces nn ctx, made', none) ]
    ]

    -- `UserInfoHasAccessToNNamespaces`
    unfoldable pub user_info_has_access_to_n_namespaces : ℕ → Preparation Builder TlsConfig
    unfolding subject_has_access_to_n_namespaces as_subject user
    user_info_has_access_to_n_namespaces number ctx made =
        subject_has_access_to_n_namespaces (as_subject (user ctx)) number ctx made

    -- `UserHasAccessToNNamespaces`
    unfoldable pub user_has_access_to_n_namespaces : ℕ → Preparation Builder TlsConfig
    unfolding user_info_has_access_to_n_namespaces user_info_from_username run_id with_user
    user_has_access_to_n_namespaces number ctx made =
        user_info_has_access_to_n_namespaces number
          (with_user (user_info_from_username (String.◌++◌ "user-" (run_id ctx))) ctx) made

    -- `GroupHasAccessToNNamespaces`
    unfoldable pub group_has_access_to_n_namespaces : String → ℕ → Preparation Builder TlsConfig
    unfolding subject_has_access_to_n_namespaces
    group_has_access_to_n_namespaces group number ctx made =
        subject_has_access_to_n_namespaces
          (record { kind = "Group"; api_group = rbac_group_name; name = group; namespace = "" })
          number ctx made

    -- `UserIsPartOfGroup`
    unfoldable pub user_is_part_of_group :
        String → Context Builder TlsConfig → Context Builder TlsConfig
    unfolding user with_user
    user_is_part_of_group group ctx =
        let u = user ctx in with_user (record u { groups = u.groups ++ group ∷ [] }) ctx

    -- the steps on a cluster-scoped permission, with the labels of the binding; the error of `Create`
    -- is ignored
    unfoldable pub bind_cluster_role : Option StringMap → Preparation Builder TlsConfig
    unfolding create as_subject user
    bind_cluster_role labels ctx made = elim cluster.build_error [
      | some e ↦ (ctx, made, some e)
      | none ↦
          let (name, err) = cluster.get_cluster_role "namespace-get" in
          elim err [
            | some e ↦ (ctx, made, some e)
            | none ↦
                let binding : RoleBinding = record {
                  meta =
                      meta_of (String.◌++◌ "test-" (String.◌++◌ (user ctx).name "-get-namespaces"))
                        "" labels;
                  role_ref = record {
                    kind = "ClusterRole";
                    api_group = rbac_group_name;
                    name = name;
                  };
                  subjects = as_subject (user ctx) ∷ [];
                } in
                (ctx, (create (created_cluster_role_binding binding) made).0, none)
          ]
    ]

    -- `UserInfoHasLabeledClusterScopedListPermissionOnNamespaces`
    unfoldable pub has_labeled_cluster_scoped_permission : Preparation Builder TlsConfig
    unfolding bind_cluster_role
    has_labeled_cluster_scoped_permission =
        bind_cluster_role (some (("namespace-lister.konflux-ci.dev/use-for-access", "true") ∷ []))

    -- `UserInfoHasClusterScopedGetPermissionOnNamespaces`
    unfoldable pub has_cluster_scoped_permission : Preparation Builder TlsConfig
    unfolding bind_cluster_role
    has_cluster_scoped_permission = bind_cluster_role none
