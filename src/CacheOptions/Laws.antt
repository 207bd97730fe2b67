-- ===== src/CacheOptions/Laws.antt =====
-- The transformation of a kind fits the objects of the kind.
use namespace_lister.Base.{◌≡◌, refl, ◌⊎◌, inl, inr, Option, none, some, ◌∙◌, List, [], ◌∷◌}
use namespace_lister.Kube.{RoleBinding, StringMap, ObjectMeta, Namespace}
use namespace_lister.Startup.{
  Kind, namespaces, role_bindings, cluster_roles, cluster_role_bindings, roles,
}
use namespace_lister.Transform.{
  Role, Object, nil, role, cluster_role, namespace, role_binding, cluster_role_binding, opaque, ok,
  TransformFunc, map_meta, PolicyRule, filter_namespaces_related_policy_rules, trim_namespace,
  trim_binding,
}
use namespace_lister.Transform.Laws.{
  StripsManagedFields, with_rules, trim_role_lem, trim_cluster_role_lem, trim_namespace_lem,
  filter_rules_idempotent,
}
use namespace_lister.CacheOptions.{by_object_transformers, build_cache_options}

-- The objects of a kind.
pub data IsOf : Kind → Object → Type 0 where
  a_namespace : (n : Namespace) → IsOf namespaces (namespace n)
  a_role : (r : Role) → IsOf roles (role r)
  a_cluster_role : (r : Role) → IsOf cluster_roles (cluster_role r)
  a_role_binding : (b : RoleBinding) → IsOf role_bindings (role_binding b)
  a_cluster_role_binding : (b : RoleBinding) → IsOf cluster_role_bindings (cluster_role_binding b)

-- The metadata of an object that has some.
abbrev pub metadata : Object → Option ObjectMeta
metadata (role r) = some r.meta
metadata (cluster_role r) = some r.meta
metadata (namespace n) = some n.meta
metadata (role_binding b) = some b.meta
metadata (cluster_role_binding b) = some b.meta
metadata nil = none
metadata (opaque n) = none

-- Two metadata that differ in the annotations at most, of which the latter has no managed fields.
abbrev pub KeepsIdentity : Option ObjectMeta → Option ObjectMeta → Type 0
KeepsIdentity (some m) (some m') =
    (m'.name ≡ m.name)
    × (m'.namespace ≡ m.namespace)
    × (m'.labels ≡ m.labels)
    × (m'.managed_fields ≡ [])
KeepsIdentity (some m) none = ⊥
KeepsIdentity none (some m) = ⊥
KeepsIdentity none none = Unit

module _ {Selector : Type 0} (selector_from_set : StringMap → Selector) (strip : TransformFunc)
    (strips : StripsManagedFields strip) {Scheme : Type 0} (scheme : Scheme)
    (namespace_selector : Option Selector) where
  abbrev transform_of : Kind → TransformFunc
  transform_of k =
      ((build_cache_options selector_from_set strip scheme namespace_selector).by_object
        k).transform

  trim_binding_lem :
      (i : Object)
      → trim_binding strip i
        ≡ ok (map_meta (λ m. record m { managed_fields = []; annotations = none }) i)
  unfolding trim_binding
  trim_binding_lem (role_binding b) = rw strips
  trim_binding_lem (cluster_role_binding b) = rw strips
  trim_binding_lem (namespace n) = rw strips
  trim_binding_lem (role r) = rw strips
  trim_binding_lem (cluster_role r) = rw strips
  trim_binding_lem nil = rw strips
  trim_binding_lem (opaque n) = rw strips

  -- What a transformation makes of an object of a kind.
  abbrev pub Fits : Kind → Object → Object → Type 0
  Fits k i o =
      (o ≡ nil) ⊎ (IsOf k o × KeepsIdentity (metadata i) (metadata o) × (transform_of k o ≡ ok o))

  with_rules-Fits :
      (k : Kind) (make : Role → Object) (r : Role)
      → ((x : Role) → IsOf k (make x))
      → ((x : Role) → metadata (make x) ≡ some x.meta)
      → ((x : Role)
          → transform_of k (make x)
            ≡ ok (with_rules make x (filter_namespaces_related_policy_rules x.rules)))
      → (pp : List PolicyRule) → filter_namespaces_related_policy_rules pp ≡ pp
      → Fits k (make r) (with_rules make r pp)
  unfolding with_rules
  with_rules-Fits k make r is met trims [] again = inl refl
  with_rules-Fits k make r is met trims (p ∷ pp) again =
      inr (is _, rw (met, met) (refl, refl, refl, refl), trims _ ∙ rw again refl)

  -- If the library's function strips managed fields and does nothing else, the transformation of each
  -- watched kind accepts every object of the kind: it makes nil of it, or an object of the same kind
  -- under the same name, with the same labels and no managed fields, which a second pass leaves as it
  -- is.
  pub transform-Fits :
      (k : Kind) (i : Object) → IsOf k i → (o : Object) × (transform_of k i ≡ ok o) × Fits k i o
  unfolding build_cache_options by_object_transformers trim_namespace trim_binding
  transform-Fits k i (a_namespace n) =
      let lem = trim_namespace_lem strip strips in
      (_, lem (namespace n), inr (a_namespace _, (refl, refl, refl, refl), lem _))
  transform-Fits k i (a_role_binding b) =
      let lem = trim_binding_lem in
      (_, lem (role_binding b), inr (a_role_binding _, (refl, refl, refl, refl), lem _))
  transform-Fits k i (a_cluster_role_binding b) =
      let lem = trim_binding_lem in
      (
        _,
        lem (cluster_role_binding b),
        inr (a_cluster_role_binding _, (refl, refl, refl, refl), lem _),
      )
  transform-Fits k i (a_role r) = (
    _,
    trim_role_lem strip strips r,
    with_rules-Fits roles role r a_role (λ x. refl) (trim_role_lem strip strips)
        (filter_namespaces_related_policy_rules r.rules) (filter_rules_idempotent r.rules),
  )
  transform-Fits k i (a_cluster_role r) = (
    _,
    trim_cluster_role_lem strip strips r,
    with_rules-Fits cluster_roles cluster_role r a_cluster_role (λ x. refl)
        (trim_cluster_role_lem strip strips) (filter_namespaces_related_policy_rules r.rules)
        (filter_rules_idempotent r.rules),
  )
