-- ===== src/Transform.antt =====
-- internal/resourcecache/internal/transform/transformfuncs.go: what is kept of an object that enters
-- the resource cache.
pub mod Laws
use namespace_lister.Base.{
  ℕ, String, Bool, ◌&&◌, Option, none, some, List, [], ◌∷◌, if◌then◌else◌, contains, string_eq,
}
use namespace_lister.Kube.{ObjectMeta, Namespace, RoleBinding}

-- `rbacv1.PolicyRule`
pub record PolicyRule : Type 0 where
  pub verbs : List String
  pub api_groups : List String
  pub resources : List String
  pub resource_names : List String
  pub non_resource_urls : List String

-- `rbacv1.Role` and `rbacv1.ClusterRole`; `aggregation` stands for the rule of a cluster role that
-- gathers other roles.
pub record Role : Type 0 where
  pub meta : ObjectMeta
  pub rules : List PolicyRule
  pub aggregation : Option String

-- A value of type `any`: nil, a pointer to one of the cached types, or something without metadata.
pub data Object : Type 0 where
  nil : Object
  role : Role → Object
  cluster_role : Role → Object
  namespace : Namespace → Object
  role_binding : RoleBinding → Object
  cluster_role_binding : RoleBinding → Object
  opaque : ℕ → Object

pub data TransformError : Type 0 where
  expected_role expected_cluster_role expected_namespace : TransformError
  foreign : String → TransformError

pub data Transformed : Type 0 where
  ok : Object → Transformed
  err : TransformError → Transformed

-- `toolscache.TransformFunc`
abbrev pub TransformFunc : Type 0
TransformFunc = Object → Transformed

-- `MergeTransformFunc`
unfoldable pub merge_transform_func : List TransformFunc → TransformFunc
merge_transform_func [] i = ok i
merge_transform_func (f ∷ ff) i = elim (f i) [ ok i' ↦ merge_transform_func ff i' | err e ↦ err e ]

-- A change of the metadata of an object that has some, as through `meta.Accessor`.
abbrev pub map_meta : (ObjectMeta → ObjectMeta) → Object → Object
map_meta f (role r) = role (record r { meta = f r.meta })
map_meta f (cluster_role r) = cluster_role (record r { meta = f r.meta })
map_meta f (namespace n) = namespace (record n { meta = f n.meta })
map_meta f (role_binding b) = role_binding (record b { meta = f b.meta })
map_meta f (cluster_role_binding b) = cluster_role_binding (record b { meta = f b.meta })
map_meta f nil = nil
map_meta f (opaque n) = opaque n

-- `TrimAnnotations`
unfoldable pub trim_annotations : TransformFunc
trim_annotations i = ok (map_meta (λ m. record m { annotations = none }) i)

-- the test of `filterNamespacesRelatedPolicyRules`
unfoldable pub is_namespaces_get : PolicyRule → Bool
is_namespaces_get r =
    contains r.api_groups "" && contains r.resources "namespaces" && contains r.verbs "get"

unfoldable pub narrow : PolicyRule → PolicyRule
narrow r = record r { api_groups = "" ∷ []; resources = "namespaces" ∷ []; verbs = "get" ∷ [] }

-- `filterNamespacesRelatedPolicyRules`
unfoldable pub filter_namespaces_related_policy_rules : List PolicyRule → List PolicyRule
unfolding is_namespaces_get narrow
filter_namespaces_related_policy_rules [] = []
filter_namespaces_related_policy_rules (r ∷ pp) =
    let rest = filter_namespaces_related_policy_rules pp in
    if is_namespaces_get r then narrow r ∷ rest else rest

abbrev if_rules : List PolicyRule → Object → Transformed
if_rules [] i = ok nil
if_rules (r ∷ rr) i = ok i

-- the last function of `TrimRole`
unfoldable pub trim_role_rules : TransformFunc
unfolding filter_namespaces_related_policy_rules
trim_role_rules (role r) =
    let rules = filter_namespaces_related_policy_rules r.rules in
    if_rules rules (role (record r { rules = rules }))
trim_role_rules _ = err expected_role

-- the last function of `TrimClusterRole`
unfoldable pub trim_cluster_role_rules : TransformFunc
unfolding filter_namespaces_related_policy_rules
trim_cluster_role_rules (cluster_role r) =
    let rules = filter_namespaces_related_policy_rules r.rules in
    if_rules rules (cluster_role (record r { rules = rules }))
trim_cluster_role_rules _ = err expected_cluster_role

-- the last function of `TrimNamespace`
unfoldable pub trim_namespace_body : TransformFunc
trim_namespace_body (namespace n) = ok (
    namespace (record n {
      spec = record { finalizers = [] };
      status = record { phase = ""; conditions = [] };
    }))
trim_namespace_body _ = err expected_namespace

-- `strip` is `cache.TransformStripManagedFields` of controller-runtime.
module _ (strip : TransformFunc) where
  unfoldable pub trim_role : TransformFunc
  unfolding merge_transform_func trim_annotations trim_role_rules
  trim_role = merge_transform_func (strip ∷ trim_annotations ∷ trim_role_rules ∷ [])

  unfoldable pub trim_cluster_role : TransformFunc
  unfolding merge_transform_func trim_annotations trim_cluster_role_rules
  trim_cluster_role = merge_transform_func (strip ∷ trim_annotations ∷ trim_cluster_role_rules ∷ [])

  unfoldable pub trim_namespace : TransformFunc
  unfolding merge_transform_func trim_namespace_body
  trim_namespace = merge_transform_func (strip ∷ trim_namespace_body ∷ [])

  unfoldable pub trim_binding : TransformFunc
  unfolding merge_transform_func trim_annotations
  trim_binding = merge_transform_func (strip ∷ trim_annotations ∷ [])
