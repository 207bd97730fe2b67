-- ===== src/Kube.antt =====
-- The Kubernetes API types that the program handles (k8s.io/api/core/v1, rbac/v1 and meta/v1), with
-- the fields that it reads or writes. A map of strings that may be nil is an `Option` of a map.
use namespace_lister.Base.{String, Option, List, Eq, String_dec}
use namespace_lister.Base.Dict.{Dict}

abbrev pub StringMap : Type 0
StringMap = Dict String String

-- `metav1.ObjectMeta`
pub record ObjectMeta : Type 0 where
  pub name : String
  pub namespace : String
  pub labels : Option StringMap
  pub annotations : Option StringMap
  pub managed_fields : List String

-- `corev1.NamespaceSpec`
pub record NamespaceSpec : Type 0 where
  pub finalizers : List String

-- `corev1.NamespaceStatus`
pub record NamespaceStatus : Type 0 where
  pub phase : String
  pub conditions : List String

-- `corev1.Namespace`
pub record Namespace : Type 0 where
  pub meta : ObjectMeta
  pub open meta use {name, labels, annotations}
  pub spec : NamespaceSpec
  pub status : NamespaceStatus

-- `rbacv1.Subject`
pub record Subject : Type 0 where
  pub kind : String
  pub api_group : String
  pub name : String
  pub namespace : String

pub Subject_dec : Discrete Subject
Subject_dec = hlevel String_dec

instance unfoldable pub subject_eq : Eq Subject
unfolding Subject_dec String_dec
subject_eq = record { dec = Subject_dec }

-- `rbacv1.RoleRef`
pub record RoleRef : Type 0 where
  pub kind : String
  pub api_group : String
  pub name : String

-- `rbacv1.RoleBinding` and `rbacv1.ClusterRoleBinding`
pub record RoleBinding : Type 0 where
  pub meta : ObjectMeta
  pub role_ref : RoleRef
  pub subjects : List Subject

-- The constants of rbac/v1 and core/v1 that the program uses.
abbrev pub rbac_group_name : String
rbac_group_name = "rbac.authorization.k8s.io"

abbrev pub user_kind : String
user_kind = "User"

abbrev pub group_kind : String
group_kind = "Group"

abbrev pub service_account_kind : String
service_account_kind = "ServiceAccount"

abbrev pub core_group_name : String
core_group_name = ""

abbrev pub core_version : String
core_version = "v1"
