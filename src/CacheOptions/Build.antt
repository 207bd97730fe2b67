-- ===== src/CacheOptions/Build.antt =====
-- `NewConfigFromEnv` of internal/resourcecache/config.go, and `build` and `buildScheme` of
-- internal/resourcecache/cache_build.go: how the resource cache is made.
use Prim.Native.String
use namespace_lister.Base.{String, Option, none, some}
use namespace_lister.Base.Fallible.{Fallible, done, failed, ◌and_then◌, wrap_error}
use namespace_lister.Env.{Getenv}
use namespace_lister.Kube.{StringMap}
use namespace_lister.Transform.{TransformFunc}
use namespace_lister.CacheOptions.{CacheOptions, build_cache_options}

-- `Config`
pub record Config (RestConfig Selector : Type 0) : Type 0 where
  pub rest_config : RestConfig
  pub namespaces_label_selector : Option Selector

-- `fmt.Errorf("%w for namespaces: %w", ErrResourceCacheConfig, err)`
abbrev pub config_error : String → String
config_error err = String.◌++◌ "error building resource cache configuration for namespaces: " err

module _ {RestConfig Selector : Type 0} (parse : String → Fallible Selector) (getenv : Getenv) where
  -- `getNamespacesLabelSelectorsFromEnv`; `parse` is `labels.Parse`
  unfoldable pub get_namespaces_label_selectors_from_env :
      Config RestConfig Selector → Fallible (Config RestConfig Selector)
  get_namespaces_label_selectors_from_env cfg =
      wrap_error config_error (parse (getenv "CACHE_NAMESPACE_LABELSELECTOR")) and_then λ ls.
      done (record cfg { namespaces_label_selector = some ls })

  -- `NewConfigFromEnv`
  unfoldable pub new_config_from_env : RestConfig → Fallible (Config RestConfig Selector)
  unfolding get_namespaces_label_selectors_from_env
  new_config_from_env cfg =
      get_namespaces_label_selectors_from_env
        (record { rest_config = cfg; namespaces_label_selector = none })

-- `cmp.Or` of two errors
abbrev pub first_error : Option String → Option String → Option String
first_error (some e) _ = some e
first_error none e = e

-- `runtime.NewScheme`, the functions `AddToScheme` of core/v1 and rbac/v1 and `cache.New`; a nil
-- selector is no selector.
pub record Kubernetes (RestConfig Selector Scheme Cache : Type 0) : Type 0 where
  pub new_scheme : Scheme
  pub add_core : Scheme → Scheme × Option String
  pub add_rbac : Scheme → Scheme × Option String
  pub new_cache : RestConfig → CacheOptions Scheme Selector → Fallible Cache

module _ {RestConfig Selector Scheme Cache : Type 0}
    (kube : Kubernetes RestConfig Selector Scheme Cache) (selector_from_set : StringMap → Selector)
    (strip : TransformFunc) where
  -- `buildScheme`: both functions are called before the errors are looked at.
  unfoldable pub build_scheme : Fallible Scheme
  build_scheme =
      let (s₁, e₁) = kube.add_core kube.new_scheme in
      let (s₂, e₂) = kube.add_rbac s₁ in
      elim (first_error e₁ e₂) [ some err ↦ failed err | none ↦ done s₂ ]

  -- `build`
  unfoldable pub build : Config RestConfig Selector → Fallible Cache
  unfolding build_scheme
  build cfg = build_scheme and_then λ s.
      kube.new_cache cfg.rest_config
        (build_cache_options selector_from_set strip s cfg.namespaces_label_selector)
