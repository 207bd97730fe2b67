-- ===== src/Policies/Cached.antt =====
-- What the resource cache answers, with the options of internal/resourcecache/cache_build.go: of each
-- kind the objects that the selector selects, transformed. An object that a transformation makes nil of
-- may be found without rules, or not be found.
use namespace_lister.Base.{
  String, Bool, true, ◌&&◌, ◌||◌, ◌≡◌, Option, none, some, List, [], ◌∷◌, ◌++◌, map, any,
  if◌then◌else◌, ◌==◌, string_eq,
}
use namespace_lister.CacheOptions.{ByObject, build_cache_options}
use namespace_lister.Kube.{StringMap, Namespace, RoleBinding}
use namespace_lister.Lister.Access.{name_of}
use namespace_lister.Policies.{Objects, has_label, find_role, named, named_in}
use namespace_lister.Retriever.{Reader}
use namespace_lister.Startup.{
  Kind, namespaces, roles, cluster_roles, role_bindings, cluster_role_bindings,
}
use namespace_lister.Transform.{
  PolicyRule, Role, Object, role, cluster_role, namespace, role_binding, cluster_role_binding,
  Transformed, ok, err, TransformFunc,
}
use namespace_lister.Transform.Laws.{rules_of}

-- `labels.Selector`, by `Matches`, and `labels.SelectorFromSet`; `strip` is the function of
-- controller-runtime that strips managed fields.
pub record Selectors : Type 1 where
  pub Selector : Type 0
  pub matches : Selector → Option StringMap → Bool
  pub from_set : StringMap → Selector
  pub from_set-matches :
      (key value : String) (labels : Option StringMap)
      → matches (from_set ((key, value) ∷ [])) labels ≡ has_label key value labels

abbrev pub rules_answered : {E : Type 0} → Role × Option E → List PolicyRule
rules_answered (r, none) = r.rules
rules_answered (r, some e) = []

abbrev pub bindings_answered : {E : Type 0} → List RoleBinding × Option E → List RoleBinding
bindings_answered (bb, none) = bb
bindings_answered (bb, some e) = []

abbrev pub bindings_in : Transformed → List RoleBinding
bindings_in (ok (role_binding b)) = b ∷ []
bindings_in (ok (cluster_role_binding b)) = b ∷ []
bindings_in _ = []

abbrev pub namespaces_in : Transformed → List Namespace
namespaces_in (ok (namespace n)) = n ∷ []
namespaces_in _ = []

abbrev pub rules_in : Transformed → List PolicyRule
rules_in (ok o) = rules_of o
rules_in (err e) = []

module _ (sel : Selectors) (strip : TransformFunc) (namespace_selector : sel.Selector) where
  open sel use {Selector, matches, from_set}

  -- The options that the program gives for a kind.
  abbrev pub options : Kind → ByObject Selector
  options = (build_cache_options from_set strip tt (some namespace_selector)).by_object

  abbrev pub selects : Option Selector → Option StringMap → Bool
  selects none labels = true
  selects (some s) labels = matches s labels

  -- What the cache keeps of the role that is found.
  abbrev pub cached_rules : Kind → (Role → Object) → Option Role → List PolicyRule
  cached_rules k make none = []
  cached_rules k make (some r) =
      if selects (options k).label r.meta.labels
      then rules_in ((options k).transform (make r))
      else []

  abbrev pub cached_bindings : Kind → (RoleBinding → Object) → List RoleBinding → List RoleBinding
  cached_bindings k make [] = []
  cached_bindings k make (b ∷ bb) =
      (if selects (options k).label b.meta.labels
        then bindings_in ((options k).transform (make b))
        else [])
      ++ cached_bindings k make bb

  abbrev pub cached_namespaces : List Namespace → List Namespace
  cached_namespaces [] = []
  cached_namespaces (n ∷ nn) =
      (if selects (options namespaces).label n.meta.labels
        then namespaces_in ((options namespaces).transform (namespace n))
        else [])
      ++ cached_namespaces nn

  -- The reader of a cache that is in step with the cluster: it finds roles by their names, and lists
  -- bindings in some order, in a namespace or, without its name, in all.
  pub record IsCacheOf {E : Type 0} (o : Objects) (cli : Reader E) : Type 0 where
    pub roles_found :
        (ns name : String)
        → rules_answered (cli.get_role ns name)
          ≡ cached_rules roles role (find_role (named_in ns name) o.roles)
    pub cluster_roles_found :
        (name : String)
        → rules_answered (cli.get_cluster_role name)
          ≡ cached_rules cluster_roles cluster_role (find_role (named name) o.cluster_roles)
    pub bindings_listed :
        (ns : String) (p : RoleBinding → Bool)
        → any p (bindings_answered (cli.list_role_bindings ns))
          ≡ any
              (λ b. (ns == "" || b.meta.namespace == ns) && p b)
              (cached_bindings role_bindings role_binding o.role_bindings)
    pub cluster_bindings_listed :
        (p : RoleBinding → Bool)
        → any p (bindings_answered cli.list_cluster_role_bindings)
          ≡ any p
              (cached_bindings cluster_role_bindings cluster_role_binding o.cluster_role_bindings)

  -- The namespaces that the reader lists, by their names and in some order.
  abbrev pub ListsNamespaces : Objects → List Namespace → Type 0
  ListsNamespaces o stored =
      (p : String → Bool)
      → any p (map name_of stored) ≡ any p (map name_of (cached_namespaces o.namespaces))
