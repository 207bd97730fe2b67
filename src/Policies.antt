-- ===== src/Policies.antt =====
-- From the objects of the cluster to the subjects that `synch` is told of: the resource cache with the
-- options of internal/resourcecache/cache_build.go, `CRAuthRetriever` of rbac_authorizer.go, and the
-- evaluator that access_cache_startup.go makes. What controller-runtime and the evaluator of
-- k8s.io/kubernetes do is a parameter, with what their documentation says of it as laws.
pub mod Cached
pub mod Trimmed
pub mod Evaluated
pub mod Served
pub mod History
use namespace_lister.Base.{
  String, Bool, true, false, not, ◌&&◌, ◌||◌, ◌≡◌, Option, none, some, List, [], ◌∷◌, ◌++◌, map,
  any, filter, contains, if◌then◌else◌, ◌==◌, string_eq,
}
use namespace_lister.Base.Dict.{lookup}
use namespace_lister.CacheOptions.{
  ByObject, build_cache_options, namespace_use_for_access_label_key,
  namespace_use_for_access_label_value_true,
}
use namespace_lister.Kube.{
  StringMap, Namespace, Subject, subject_eq, RoleRef, RoleBinding, rbac_group_name, group_kind,
}
use namespace_lister.Retriever.{Reader, RoleSource, new_cr_auth_retriever}
use namespace_lister.Startup.{
  Kind, namespaces, roles, cluster_roles, role_bindings, cluster_role_bindings,
}
use namespace_lister.Synch.{Attributes, Error}
use namespace_lister.Transform.{
  PolicyRule, Role, Object, nil, role, cluster_role, namespace, role_binding, cluster_role_binding,
  opaque, Transformed, ok, err, TransformFunc,
}
use namespace_lister.Transform.Laws.{allows, rules_of}

-- The objects of the cluster that the resource cache watches.
pub record Objects : Type 0 where
  pub namespaces : List Namespace
  pub roles : List Role
  pub cluster_roles : List Role
  pub role_bindings : List RoleBinding
  pub cluster_role_bindings : List RoleBinding

-- A label is set to a value.
abbrev pub has_label : String → String → Option StringMap → Bool
has_label key value none = false
has_label key value (some m) = elim (lookup key m) [ none ↦ false | some v ↦ v == value ]

-- The first role with a property.
unfoldable pub find_role : (Role → Bool) → List Role → Option Role
find_role p [] = none
find_role p (r ∷ rr) = let rest = find_role p rr in if p r then some r else rest

abbrev pub named : String → Role → Bool
named name r = r.meta.name == name

abbrev pub named_in : String → String → Role → Bool
named_in space name r = r.meta.namespace == space && r.meta.name == name

abbrev pub rules_found : Option Role → List PolicyRule
rules_found none = []
rules_found (some r) = r.rules

module _ (o : Objects) where
  -- The role that a binding refers to allows to get the namespace of this name, by the verbs, groups
  -- and resources that its rules list.
  unfoldable pub role_allows : (binding_namespace : String) → RoleRef → String → Bool
  role_allows binding_namespace ref name =
      if ref.kind == "Role"
      then any (allows "get" "" "namespaces" name)
          (rules_found (find_role (named_in binding_namespace ref.name) o.roles))
      else if ref.kind == "ClusterRole"
      then any (allows "get" "" "namespaces" name)
          (rules_found (find_role (named ref.name) o.cluster_roles))
      else false

  -- The subject is granted to get the namespace of this name: by a role binding in the namespace, or by
  -- a cluster role binding with the label for it.
  unfoldable pub granted : String → Subject → Bool
  unfolding role_allows
  granted name s =
      any
        (λ b.
          has_label namespace_use_for_access_label_key namespace_use_for_access_label_value_true
            b.meta.labels
          && contains b.subjects s
          && role_allows "" b.role_ref name)
        o.cluster_role_bindings
      || not (name == "")
        && any
            (λ b.
              b.meta.namespace == name && contains b.subjects s && role_allows name b.role_ref name)
            o.role_bindings

-- The group that Kubernetes allows everything.
abbrev pub system_masters : Subject
system_masters = record {
  kind = group_kind;
  api_group = rbac_group_name;
  name = "system:masters";
  namespace = "";
}

-- `rbac.NewSubjectAccessEvaluator`, with `AllowedSubjects` of what it makes.
abbrev pub NewSubjectAccessEvaluator : Type 0 → Type 0
NewSubjectAccessEvaluator E =
    (roles bindings cluster_roles cluster_bindings : RoleSource E)
    → (super_user : String) → Attributes
    → List Subject × Option Error

-- the evaluator of `buildAndStartSynchronizedAccessCache`
unfoldable pub allowed_subjects_of :
    {E : Type 0} → NewSubjectAccessEvaluator E → Reader E → Attributes → List Subject × Option Error
unfolding new_cr_auth_retriever
allowed_subjects_of new resource_cache =
    let aur = new_cr_auth_retriever resource_cache in new aur aur aur aur ""

-- A rule applies to a request for a resource, with `*` for every verb, group or resource.
abbrev pub applies : Attributes → PolicyRule → Bool
applies a r =
    (contains r.verbs "*" || contains r.verbs a.verb)
    && (contains r.api_groups "*" || contains r.api_groups a.api_group)
    && (contains r.resources "*" || contains r.resources a.resource)
    && (elim r.resource_names [ [] ↦ true | n ∷ nn ↦ contains (n ∷ nn) a.name ])

abbrev pub or_no_bindings : Option (List RoleBinding) → List RoleBinding
or_no_bindings none = []
or_no_bindings (some bb) = bb

module _ {E : Type 0} (source : RoleSource E) where
  -- The rules of the role that a binding refers to.
  abbrev pub rules_of_ref : (binding_namespace : String) → RoleRef → List PolicyRule
  rules_of_ref binding_namespace ref =
      if ref.kind == "Role"
      then rules_found (source.get_role binding_namespace ref.name).0
      else if ref.kind == "ClusterRole"
      then rules_found (source.get_cluster_role ref.name).0
      else []

  abbrev pub binds : (binding_namespace : String) → Attributes → Subject → RoleBinding → Bool
  binds binding_namespace a s b =
      contains b.subjects s && any (applies a) (rules_of_ref binding_namespace b.role_ref)

-- What the documentation of RBAC says that the evaluator allows, without a super user: the group of
-- the masters, and the subjects of the cluster role bindings, and of the role bindings in the namespace
-- of the request, whose role has a rule that applies; read through a `CRAuthRetriever`, which gives no
-- value beside an error.
abbrev pub IsEvaluator : {E : Type 0} → NewSubjectAccessEvaluator E → Type 0
IsEvaluator {E} new =
    (cli : Reader E) (a : Attributes) (s : Subject)
    → a.resource_request ≡ true
    → (let source = new_cr_auth_retriever cli in
        contains (new source source source source "" a).0 s ≡ (
          system_masters == s
          || any (binds source "" a s) (or_no_bindings source.list_cluster_role_bindings.0)
          || not (a.namespace == "")
            && any (binds source a.namespace a s)
                (or_no_bindings (source.list_role_bindings a.namespace).0)))
