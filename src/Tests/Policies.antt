-- ===== src/Tests/Policies.antt =====
-- Witnesses: the transformations of the resource cache on concrete roles and namespaces.
use namespace_lister.Base.{
  any, ◌&&◌, true, ◌≡◌, refl, String_dec, none, [], ◌∷◌, contains, string_eq,
}
use namespace_lister.Transform.{
  PolicyRule, Role, ok, TransformFunc, map_meta, filter_namespaces_related_policy_rules,
  is_namespaces_get,
}
use namespace_lister.Tests.{meta_of, alpha}
use namespace_lister.Policies.{applies}
use namespace_lister.Policies.Trimmed.{filter_rules-applies}
use namespace_lister.Synch.{attributes_of}

-- A rule about namespaces and pods, one about namespaces by a wildcard, and one about pods.
abbrev pub mixed : PolicyRule
mixed = record {
  verbs = "get" ∷ "list" ∷ [];
  api_groups = "" ∷ [];
  resources = "pods" ∷ "namespaces" ∷ [];
  resource_names = "alpha" ∷ [];
  non_resource_urls = [];
}

abbrev wild : PolicyRule
wild = record mixed { verbs = "*" ∷ [] }

abbrev pods : PolicyRule
pods = record mixed { resources = "pods" ∷ [] }

abbrev pub viewer : Role
viewer = record {
  meta = meta_of "viewer" none;
  rules = mixed ∷ wild ∷ pods ∷ [];
  aggregation = none;
}

-- A function that clears the managed fields, as that of controller-runtime does.
abbrev pub strip_managed_fields : TransformFunc
strip_managed_fields i = ok (map_meta (λ m. record m { managed_fields = [] }) i)

filter_rules-applies_example :
    any
      (applies (attributes_of alpha))
      (filter_namespaces_related_policy_rules (mixed ∷ wild ∷ pods ∷ []))
    ≡ any
        (λ r.
          applies (attributes_of alpha) r
          && (contains r.verbs "get"
              && (contains r.api_groups "" && contains r.resources "namespaces")))
        (mixed ∷ wild ∷ pods ∷ [])
filter_rules-applies_example = filter_rules-applies alpha (mixed ∷ wild ∷ pods ∷ [])

-- The rule with the wildcard is dropped although it applies.
wild_alone :
    (any (applies (attributes_of alpha)) (wild ∷ []) ≡ true)
    × (filter_namespaces_related_policy_rules (wild ∷ []) ≡ [])
unfolding attributes_of filter_namespaces_related_policy_rules is_namespaces_get contains String_dec
    string_eq
wild_alone = (refl, refl)
