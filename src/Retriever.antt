-- ===== src/Retriever.antt =====
-- `CRAuthRetriever` of rbac_authorizer.go, which the evaluator of k8s.io/kubernetes reads roles and
-- bindings through. Deep copies and pointers are not kept apart from the values.
use namespace_lister.Base.{String, Option, none, some, List, map}
use namespace_lister.Kube.{RoleBinding}
use namespace_lister.Transform.{Role}

-- `client.Reader` at the four types that are read: by namespace and name, or all of a namespace.
pub record Reader (Error : Type 0) : Type 0 where
  pub get_role : (namespace name : String) → Role × Option Error
  pub get_cluster_role : (name : String) → Role × Option Error
  pub list_role_bindings : (namespace : String) → List RoleBinding × Option Error
  pub list_cluster_role_bindings : List RoleBinding × Option Error

-- A value beside an error as Go returns them: the value is nil if there is an error.
abbrev pub unless_error {ℓ κ} : {A : Type ℓ} {E : Type κ} → A × Option E → Option A × Option E
unless_error (a, none) = (some a, none)
unless_error (a, some e) = (none, some e)

-- the loop that copies the items
unfoldable pub copies : List RoleBinding → List RoleBinding
copies = map (λ rb. rb)

-- `RoleGetter`, `RoleBindingLister`, `ClusterRoleGetter` and `ClusterRoleBindingLister` of
-- k8s.io/kubernetes, together.
pub record RoleSource (Error : Type 0) : Type 0 where
  pub get_role : (namespace name : String) → Option Role × Option Error
  pub list_role_bindings : (namespace : String) → Option (List RoleBinding) × Option Error
  pub get_cluster_role : (name : String) → Option Role × Option Error
  pub list_cluster_role_bindings : Option (List RoleBinding) × Option Error

module _ {Error : Type 0} (cli : Reader Error) where
  -- `GetRole`
  unfoldable pub get_role : (namespace name : String) → Option Role × Option Error
  get_role namespace name = unless_error (cli.get_role namespace name)

  -- `ListRoleBindings`
  unfoldable pub list_role_bindings :
      (namespace : String) → Option (List RoleBinding) × Option Error
  unfolding copies
  list_role_bindings namespace =
      let (items, err) = cli.list_role_bindings namespace in unless_error (copies items, err)

  -- `GetClusterRole`
  unfoldable pub get_cluster_role : (name : String) → Option Role × Option Error
  get_cluster_role name = unless_error (cli.get_cluster_role name)

  -- `ListClusterRoleBindings`
  unfoldable pub list_cluster_role_bindings : Option (List RoleBinding) × Option Error
  unfolding copies
  list_cluster_role_bindings =
      let (items, err) = cli.list_cluster_role_bindings in unless_error (copies items, err)

  -- `NewCRAuthRetriever`: the four methods above
  unfoldable pub new_cr_auth_retriever : RoleSource Error
  unfolding get_role list_role_bindings get_cluster_role list_cluster_role_bindings
  new_cr_auth_retriever = record {
    get_role = get_role;
    list_role_bindings = list_role_bindings;
    get_cluster_role = get_cluster_role;
    list_cluster_role_bindings = list_cluster_role_bindings;
  }

  -- `NewAuthorizer`; `new` is `rbac.New`
  unfoldable pub new_authorizer :
      {Authorizer : Type 0}
      → (new : (roles bindings cluster_roles cluster_bindings : RoleSource Error) → Authorizer)
      → Authorizer
  unfolding new_cr_auth_retriever
  new_authorizer new = let aur = new_cr_auth_retriever in new aur aur aur aur
