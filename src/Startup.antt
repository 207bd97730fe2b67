-- ===== src/Startup.antt =====
-- How the program comes up: `run` of main.go, `NewAuthenticator` of authenticator.go,
-- internal/resourcecache/{config,cache,cache_build}.go and access_cache_startup.go. Each call of a
-- library or of a component is an action that is recorded; flags are read and loggers built before.
pub mod Calls
pub mod Failures
use namespace_lister.Base.{String, Bool, Option, none, some, List, [], ◌∷◌, ◌++◌, if◌then◌else◌}

-- The types of the objects that are watched.
pub data Kind : Type 0 where
  namespaces role_bindings cluster_roles cluster_role_bindings roles : Kind

pub data Action : Type 0 where
  build_authenticator parse_label_selector build_scheme new_resource_cache : Action
  get_informer add_event_handler : Kind → Action
  start_resource_cache wait_for_cache_sync register_metrics : Action
  start_access_cache synch_access_cache : Action
  build_http_client build_metrics_server start_metrics_server : Action
  listen_and_serve listen_and_serve_tls : Action

pub data StartError : Type 0 where
  as_given : String → StartError
  no_client_and_no_config not_synched : StartError
  bad_selector : String → StartError
  no_informer : Kind → String → StartError

-- The error of each action, if it has one, after the actions before it.
pub record Outside : Type 0 where
  pub answer : List Action → Action → Option String

-- The actions so far, and the error that ended the start.
abbrev pub Progress : Type 0
Progress = List Action × Option StartError

abbrev pub Stage : Type 0
Stage = List Action → Progress

-- The second stage if the first one has no error.
infixr 5 ◌then_do◌
unfoldable pub ◌then_do◌ : Progress → Stage → Progress
(t, none) then_do f = f t
(t, some e) then_do f = (t, some e)

abbrev pub cached_objects : List Kind
cached_objects = namespaces ∷ role_bindings ∷ cluster_roles ∷ cluster_role_bindings ∷ roles ∷ []

-- the list `oo` of access_cache_startup.go
abbrev pub event_objects : List Kind
event_objects = namespaces ∷ cluster_role_bindings ∷ role_bindings ∷ cluster_roles ∷ roles ∷ []

abbrev pub with_error : (String → StartError) → Option String → Option StartError
with_error wrap none = none
with_error wrap (some m) = some (wrap m)

-- `AuthenticatorOptions`, by what they hold, and the flags and the registry of `run`.
pub record Flags : Type 0 where
  pub has_client : Bool
  pub has_config : Bool
  pub has_registry : Bool
  pub enable_metrics : Bool
  pub enable_tls : Bool

module _ (out : Outside) where
  -- A call, with what is made of its error.
  unfoldable pub perform : (String → StartError) → Action → Stage
  perform wrap a t = (t ++ a ∷ [], with_error wrap (out.answer t a))

  -- A call that returns no error.
  unfoldable pub note : Action → Stage
  note a t = (t ++ a ∷ [], none)

  -- `NewAuthenticator`
  unfoldable pub new_authenticator : Flags → Stage
  unfolding perform
  new_authenticator flags t =
      if flags.has_client
      then perform as_given build_authenticator t
      else if flags.has_config
      then perform as_given build_authenticator t
      else (t, some no_client_and_no_config)

  -- `NewConfigFromEnv`
  unfoldable pub new_config_from_env : Stage
  unfolding perform
  new_config_from_env = perform bad_selector parse_label_selector

  -- the loop of `start` of cache.go
  unfoldable pub get_informers : List Kind → Stage
  unfolding perform ◌then_do◌
  get_informers [] t = (t, none)
  get_informers (k ∷ kk) t = perform (no_informer k) (get_informer k) t then_do get_informers kk

  -- `start` of cache.go
  unfoldable pub start_cache : Stage
  unfolding perform note get_informers ◌then_do◌
  start_cache t = get_informers cached_objects t then_do λ t₁.
      note start_resource_cache t₁ then_do perform (λ m. not_synched) wait_for_cache_sync

  -- `BuildAndStart`, with `build`
  unfoldable pub build_and_start : Stage
  unfolding perform start_cache ◌then_do◌
  build_and_start t = perform as_given build_scheme t then_do λ t₁.
      perform as_given new_resource_cache t₁ then_do start_cache

  -- `BuildAndRegisterAccessCacheMetrics`
  unfoldable pub build_and_register_access_cache_metrics : Flags → Stage
  unfolding perform
  build_and_register_access_cache_metrics flags t =
      if flags.has_registry then perform as_given register_metrics t else (t, none)

  -- the loop of `buildAndStartSynchronizedAccessCache`
  unfoldable pub register_handlers : List Kind → Stage
  unfolding perform ◌then_do◌
  register_handlers [] t = (t, none)
  register_handlers (k ∷ kk) t = perform as_given (get_informer k) t then_do λ t₁.
      perform as_given (add_event_handler k) t₁ then_do register_handlers kk

  -- `buildAndStartSynchronizedAccessCache`
  unfoldable pub build_and_start_synchronized_access_cache : Flags → Stage
  unfolding perform note register_handlers build_and_register_access_cache_metrics ◌then_do◌
  build_and_start_synchronized_access_cache flags t =
      build_and_register_access_cache_metrics flags t then_do λ t₁.
      register_handlers event_objects t₁ then_do λ t₂.
      note start_access_cache t₂ then_do perform as_given synch_access_cache

  -- the metrics server of `run`
  unfoldable pub start_metrics : Flags → Stage
  unfolding perform note ◌then_do◌
  start_metrics flags t =
      if flags.enable_metrics
      then (perform as_given build_http_client t then_do (λ t₁.
          perform as_given build_metrics_server t₁ then_do note start_metrics_server))
      else (t, none)

  -- `Start` of the API server, after `WithTLS`
  unfoldable pub start_server : Flags → Stage
  unfolding perform
  start_server flags t =
      if flags.enable_tls
      then perform as_given listen_and_serve_tls t
      else perform as_given listen_and_serve t

  -- `run`
  unfoldable pub run : Flags → Stage
  unfolding new_authenticator new_config_from_env build_and_start start_metrics start_server
      build_and_start_synchronized_access_cache ◌then_do◌
  run flags t = new_authenticator flags t then_do λ t₁. new_config_from_env t₁ then_do λ t₂.
      build_and_start t₂ then_do λ t₃.
      build_and_start_synchronized_access_cache flags t₃ then_do λ t₄.
      start_metrics flags t₄ then_do start_server flags
