-- ===== src/Policies/Trimmed.antt =====
-- What the transformations of transformfuncs.go leave of rules and bindings for the evaluator.
use namespace_lister.Base.{
  false, if◌then◌else◌, Bool, true, ◌&&◌, ◌||◌, ◌≡◌, refl, ap, ◌∙◌, Option, none, some, List, [],
  ◌∷◌, any, contains, string_eq, String_dec, arith,
}
use namespace_lister.CacheOptions.{
  build_cache_options, by_object_transformers, namespace_use_for_access_label_key,
  namespace_use_for_access_label_value_true,
}
use namespace_lister.Kube.{Namespace, RoleBinding}
use namespace_lister.Policies.{applies, rules_found, has_label}
use namespace_lister.Policies.Cached.{Selectors, cached_rules, cached_bindings, rules_in}
use namespace_lister.Startup.{roles, cluster_roles, role_bindings, cluster_role_bindings}
use namespace_lister.Synch.{attributes_of}
use namespace_lister.Transform.{
  PolicyRule, Role, role, cluster_role, role_binding, cluster_role_binding, TransformFunc,
  is_namespaces_get, narrow, filter_namespaces_related_policy_rules, trim_binding,
}
use namespace_lister.Transform.Laws.{
  allows, StripsManagedFields, rules_of-with_rules, trim_role_lem, trim_cluster_role_lem,
}

applies-narrow :
    (ns : Namespace) (r : PolicyRule)
    → applies (attributes_of ns) (narrow r)
      ≡ (elim r.resource_names [ [] ↦ true | n ∷ nn ↦ contains (n ∷ nn) ns.meta.name ])
unfolding narrow attributes_of contains string_eq String_dec
applies-narrow ns r = refl

-- The rules that are kept apply, with wildcards counted, to getting the namespaces that the rules allow
-- without.
pub applies-filter_rules :
    (ns : Namespace) (pp : List PolicyRule)
    → any (applies (attributes_of ns)) (filter_namespaces_related_policy_rules pp)
      ≡ any (allows "get" "" "namespaces" ns.meta.name) pp
unfolding filter_namespaces_related_policy_rules is_namespaces_get
applies-filter_rules ns [] = refl
applies-filter_rules ns (r ∷ pp) = ground (arith, applies-narrow ns r, applies-filter_rules ns pp)

any-if :
    (p : PolicyRule → Bool) (b : Bool) (r : PolicyRule) (pp : List PolicyRule)
    → any p (if b then r ∷ pp else pp) ≡ (b && p r || any p pp)
any-if p true r pp = refl
any-if p false r pp = refl

listed_itself :
    (sv sg sr v g r n : Bool)
    → (g && r && v && n) ≡ ((sv || v) && (sg || g) && (sr || r) && n && (v && (g && r)))
listed_itself sv sg sr v g r n = ground arith

-- Which grants survive the filter of a role's rules. Getting a namespace is allowed by the rules that
-- are kept, with wildcards counted as RBAC counts them, exactly if one of the role's own rules allows
-- it by RBAC and lists the verb `get`, the core group and the resource `namespaces` themselves. So a
-- grant by a wildcard verb, group or resource alone does not count.
pub filter_rules-applies :
    (ns : Namespace) (pp : List PolicyRule)
    → any (applies (attributes_of ns)) (filter_namespaces_related_policy_rules pp)
      ≡ any
          (λ r.
            applies (attributes_of ns) r
            && (contains r.verbs "get"
                && (contains r.api_groups "" && contains r.resources "namespaces")))
          pp
unfolding filter_namespaces_related_policy_rules is_namespaces_get attributes_of
filter_rules-applies ns [] = refl
filter_rules-applies ns (r ∷ pp) =
    let a = attributes_of ns in
    let q : PolicyRule → Bool = λ r.
      applies a r
      && (contains r.verbs "get"
          && (contains r.api_groups "" && contains r.resources "namespaces")) in
    any-if (applies a) (is_namespaces_get r) (narrow r) (filter_namespaces_related_policy_rules pp)
    ∙ ap
        (λ b.
          is_namespaces_get r && b || any (applies a) (filter_namespaces_related_policy_rules pp))
        (applies-narrow ns r)
    ∙ ap (λ b. b || any (applies a) (filter_namespaces_related_policy_rules pp))
        (listed_itself (contains r.verbs "*") (contains r.api_groups "*") (contains r.resources "*")
          (contains r.verbs "get") (contains r.api_groups "") (contains r.resources "namespaces")
          (elim r.resource_names [ [] ↦ true | n ∷ nn ↦ contains (n ∷ nn) ns.meta.name ]))
    ∙ ap (λ b. q r || b) (filter_rules-applies ns pp)

-- A binding as it is kept.
abbrev pub trimmed : RoleBinding → RoleBinding
trimmed b = record b { meta = record (b.meta) { managed_fields = []; annotations = none } }

module _ (sel : Selectors) (strip : TransformFunc) (strips : StripsManagedFields strip)
    (namespace_selector : sel.Selector) where
  pub cached_roles_lem :
      (f : Option Role)
      → cached_rules sel strip namespace_selector roles role f
        ≡ filter_namespaces_related_policy_rules (rules_found f)
  unfolding build_cache_options by_object_transformers filter_namespaces_related_policy_rules
  cached_roles_lem none = refl
  cached_roles_lem (some r) =
      ap rules_in (trim_role_lem strip strips r)
      ∙ rules_of-with_rules role (λ x. refl) (λ x h. cc) r _

  pub cached_cluster_roles_lem :
      (f : Option Role)
      → cached_rules sel strip namespace_selector cluster_roles cluster_role f
        ≡ filter_namespaces_related_policy_rules (rules_found f)
  unfolding build_cache_options by_object_transformers filter_namespaces_related_policy_rules
  cached_cluster_roles_lem none = refl
  cached_cluster_roles_lem (some r) =
      ap rules_in (trim_cluster_role_lem strip strips r)
      ∙ rules_of-with_rules cluster_role (λ x. refl) (λ x h. cc) r _

  pub any-cached_role_bindings :
      (p : RoleBinding → Bool) (bb : List RoleBinding)
      → any p (cached_bindings sel strip namespace_selector role_bindings role_binding bb)
        ≡ any (λ b. p (trimmed b)) bb
  unfolding build_cache_options by_object_transformers trim_binding
  any-cached_role_bindings p [] = refl
  any-cached_role_bindings p (b ∷ bb) =
      rw (strips (role_binding b)) (ap (λ x. p (trimmed b) || x) (any-cached_role_bindings p bb))

  pub any-cached_cluster_role_bindings :
      (p : RoleBinding → Bool) (bb : List RoleBinding)
      → any p (
          cached_bindings sel strip namespace_selector cluster_role_bindings cluster_role_binding
            bb)
        ≡ any
            (λ b.
              has_label namespace_use_for_access_label_key namespace_use_for_access_label_value_true
                b.meta.labels
              && p (trimmed b))
            bb
  unfolding build_cache_options by_object_transformers trim_binding
  any-cached_cluster_role_bindings p [] = refl
  any-cached_cluster_role_bindings p (b ∷ bb) =
      rw
        (
          strips (cluster_role_binding b),
          sel.from_set-matches namespace_use_for_access_label_key
              namespace_use_for_access_label_value_true b.meta.labels,
        )
        (ground (arith, any-cached_cluster_role_bindings p bb))
