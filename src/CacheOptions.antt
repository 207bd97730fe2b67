-- ===== src/CacheOptions.antt =====
-- internal/resourcecache/cache_build.go: what the resource cache watches, and how.
pub mod Laws
pub mod Build
use namespace_lister.Base.{String, Bool, true, Option, none, some, List, [], ◌∷◌}
use namespace_lister.Kube.{StringMap}
use namespace_lister.Startup.{
  Kind, namespaces, role_bindings, cluster_roles, cluster_role_bindings, roles,
}
use namespace_lister.Transform.{
  TransformFunc, trim_namespace, trim_role, trim_cluster_role, trim_binding,
}

abbrev pub namespace_use_for_access_label_key : String
namespace_use_for_access_label_key = "namespace-lister.konflux-ci.dev/use-for-access"

abbrev pub namespace_use_for_access_label_value_true : String
namespace_use_for_access_label_value_true = "true"

-- `cache.ByObject`; without a label selector, which is nil then, every object is watched.
pub record ByObject (Selector : Type 0) : Type 0 where
  pub label : Option Selector
  pub transform : TransformFunc

-- `cache.Options`; `by_object` gives the entry of a kind.
pub record CacheOptions (Scheme Selector : Type 0) : Type 0 where
  pub scheme : Scheme
  pub unsafe_disable_deep_copy : Bool
  pub reader_fail_on_missing_informer : Bool
  pub by_object : Kind → ByObject Selector

-- `selector_from_set` is `labels.SelectorFromSet`, and `strip` is `TransformStripManagedFields`.
module _ {Selector : Type 0} (selector_from_set : StringMap → Selector)
    (strip : TransformFunc) where
  -- `byObjectTransformers`
  unfoldable pub by_object_transformers : Option Selector → Kind → ByObject Selector
  unfolding trim_namespace trim_role trim_cluster_role trim_binding
  by_object_transformers namespace_selector namespaces = record {
    label = namespace_selector;
    transform = trim_namespace strip;
  }
  by_object_transformers namespace_selector roles = record {
    label = none;
    transform = trim_role strip;
  }
  by_object_transformers namespace_selector role_bindings = record {
    label = none;
    transform = trim_binding strip;
  }
  by_object_transformers namespace_selector cluster_roles = record {
    label = none;
    transform = trim_cluster_role strip;
  }
  by_object_transformers namespace_selector cluster_role_bindings = record {
    label = some (
        selector_from_set
          ((namespace_use_for_access_label_key, namespace_use_for_access_label_value_true) ∷ []));
    transform = trim_binding strip;
  }

  -- `buildCacheOptions`
  unfoldable pub build_cache_options :
      {Scheme : Type 0} → Scheme → Option Selector → CacheOptions Scheme Selector
  unfolding by_object_transformers
  build_cache_options s namespace_selector = record {
    scheme = s;
    unsafe_disable_deep_copy = true;
    reader_fail_on_missing_informer = true;
    by_object = by_object_transformers namespace_selector;
  }
