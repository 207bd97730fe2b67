-- ===== src/Transform/Laws.antt =====
-- What the transformations of transformfuncs.go keep.
use namespace_lister.Base.{
  ◌≡◌, ◌≢◌, ◌↔◌, refl, ap, ◌∙◌, String, Bool, true, false, ◌&&◌, none, List, [], ◌∷◌, contains,
  ◌==◌, string_eq, any, arith,
}
use namespace_lister.Transform.{
  PolicyRule, Role, Object, nil, role, cluster_role, namespace, expected_namespace, ok, err,
  TransformFunc, map_meta, is_namespaces_get, narrow, filter_namespaces_related_policy_rules,
  trim_role, trim_cluster_role, trim_namespace,
}

-- A rule allows a verb on a named resource, by the names that it lists and without wildcards. A rule
-- with no resource names speaks of every resource.
abbrev pub allows : (verb api_group resource name : String) → PolicyRule → Bool
allows verb api_group resource name r =
    contains r.verbs verb
    && contains r.api_groups api_group
    && contains r.resources resource
    && (elim r.resource_names [ [] ↦ true | n ∷ nn ↦ contains (n ∷ nn) name ])

-- The filtered rules allow to get exactly those namespaces that the rules allow to get, and nothing
-- else.
filter_rules-allows :
    (pp : List PolicyRule) (verb api_group resource name : String)
    → any (allows verb api_group resource name) (filter_namespaces_related_policy_rules pp) ≡ (
        verb == "get"
        && api_group == ""
        && resource == "namespaces"
        && any (allows "get" "" "namespaces" name) pp)
unfolding filter_namespaces_related_policy_rules is_namespaces_get narrow contains
filter_rules-allows [] verb api_group resource name = ground arith
filter_rules-allows (r ∷ pp) verb api_group resource name =
    ground (arith, filter_rules-allows pp verb api_group resource name)

-- Filtering the policy rules a second time changes nothing.
pub filter_rules_idempotent :
    (pp : List PolicyRule)
    → filter_namespaces_related_policy_rules (filter_namespaces_related_policy_rules pp)
      ≡ filter_namespaces_related_policy_rules pp
unfolding filter_namespaces_related_policy_rules is_namespaces_get narrow contains
filter_rules_idempotent [] = refl
filter_rules_idempotent (r ∷ pp) = ground (arith, filter_rules_idempotent pp)

-- The function of controller-runtime clears the managed fields, leaves everything else, and accepts
-- every value.
abbrev pub StripsManagedFields : TransformFunc → Type 0
StripsManagedFields strip =
    (i : Object) → strip i ≡ ok (map_meta (λ m. record m { managed_fields = [] }) i)

-- The rules that an object of the cache has.
abbrev pub rules_of : Object → List PolicyRule
rules_of (role r) = r.rules
rules_of (cluster_role r) = r.rules
rules_of _ = []

filter_rules-nil_iff :
    (pp : List PolicyRule)
    → (filter_namespaces_related_policy_rules pp ≡ []) ↔ (any is_namespaces_get pp ≡ false)
unfolding filter_namespaces_related_policy_rules
filter_rules-nil_iff [] = ground arith
filter_rules-nil_iff (r ∷ pp) = ground (arith, filter_rules-nil_iff pp)

-- A role with the given rules, or nil if there are none.
unfoldable pub with_rules : (Role → Object) → Role → List PolicyRule → Object
with_rules make r [] = nil
with_rules make r (p ∷ pp) = make (record {
  meta = record (r.meta) { managed_fields = []; annotations = none };
  rules = p ∷ pp;
  aggregation = r.aggregation;
})

-- The object has the same names of namespaces that may be got as the role, and allows nothing else;
-- it is nil exactly if no rule of the role is about getting namespaces.
abbrev KeepsAccess : Role → Object → Type 0
KeepsAccess r o =
    ((verb api_group resource name : String)
      → any (allows verb api_group resource name) (rules_of o) ≡ (
          verb == "get"
          && api_group == ""
          && resource == "namespaces"
          && any (allows "get" "" "namespaces" name) r.rules))
    × ((o ≡ nil) ↔ (any is_namespaces_get r.rules ≡ false))

module _ (make : Role → Object) (rules_of-make : (r : Role) → rules_of (make r) ≡ r.rules)
    (make-ne-nil : (r : Role) → make r ≢ nil) where
  pub rules_of-with_rules : (r : Role) (pp : List PolicyRule) → rules_of (with_rules make r pp) ≡ pp
  unfolding with_rules
  rules_of-with_rules r [] = refl
  rules_of-with_rules r (p ∷ pp) = rules_of-make _

  with_rules-nil_iff : (r : Role) (pp : List PolicyRule) → (with_rules make r pp ≡ nil) ↔ (pp ≡ [])
  unfolding with_rules
  with_rules-nil_iff r [] = (λ h. refl, λ h. refl)
  with_rules-nil_iff r (p ∷ pp) = (λ h. absurd (make-ne-nil _ h), λ h. cc)

  with_rules-KeepsAccess :
      (r : Role)
      → KeepsAccess r (with_rules make r (filter_namespaces_related_policy_rules r.rules))
  with_rules-KeepsAccess r =
      let (to, from) = with_rules-nil_iff r (filter_namespaces_related_policy_rules r.rules) in
      let (to', from') = filter_rules-nil_iff r.rules in
      (
        λ verb api_group resource name.
            ap (any (allows verb api_group resource name)) (rules_of-with_rules r _)
            ∙ filter_rules-allows r.rules verb api_group resource name,
        (λ h. to' (to h), λ h. from (from' h)),
      )

module _ (strip : TransformFunc) (strips : StripsManagedFields strip) where
  pub trim_role_lem :
      (r : Role)
      → trim_role strip (role r)
        ≡ ok (with_rules role r (filter_namespaces_related_policy_rules r.rules))
  unfolding trim_role with_rules
  trim_role_lem r = rw (strips (role r)) (ground arith)

  pub trim_cluster_role_lem :
      (r : Role)
      → trim_cluster_role strip (cluster_role r)
        ≡ ok (with_rules cluster_role r (filter_namespaces_related_policy_rules r.rules))
  unfolding trim_cluster_role with_rules
  trim_cluster_role_lem r = rw (strips (cluster_role r)) (ground arith)

  -- If the library's function strips managed fields and does nothing else, a role enters the cache
  -- with the same names of namespaces that may be got by it, counted without wildcards, and with
  -- nothing else allowed; nil is stored for it exactly if no rule of it is about getting
  -- namespaces.
  trim_role-KeepsAccess :
      (r : Role) → (o : Object) × (trim_role strip (role r) ≡ ok o) × KeepsAccess r o
  trim_role-KeepsAccess r =
      (_, trim_role_lem r, with_rules-KeepsAccess role (λ x. refl) (λ x h. cc) r)

  -- If the library's function strips managed fields and does nothing else, a cluster role enters the
  -- cache with the same names of namespaces that may be got by it, counted without wildcards, and with
  -- nothing else allowed; nil is stored for it exactly if no rule of it is about getting
  -- namespaces.
  trim_cluster_role-KeepsAccess :
      (r : Role)
      → (o : Object) × (trim_cluster_role strip (cluster_role r) ≡ ok o) × KeepsAccess r o
  trim_cluster_role-KeepsAccess r =
      (_, trim_cluster_role_lem r, with_rules-KeepsAccess cluster_role (λ x. refl) (λ x h. cc) r)

  -- If the library's function strips managed fields and does nothing else, a namespace loses its
  -- specification, its status and its managed fields, and nothing else: the labels and annotations
  -- stay. Every other object is refused.
  pub trim_namespace_lem :
      (i : Object)
      → trim_namespace strip i ≡ (elim i [
        | namespace n ↦ ok (
            namespace (record {
              meta = record (n.meta) { managed_fields = [] };
              spec = record { finalizers = [] };
              status = record { phase = ""; conditions = [] };
            }))
        | _ ↦ err expected_namespace
      ])
  unfolding trim_namespace
  trim_namespace_lem (namespace n) = rw strips
  trim_namespace_lem _ = rw strips
