-- ===== src/Acceptance.antt =====
-- acceptance/pkg/context/context.go: what the steps of an acceptance test hand on to each other.
-- `UserInfo` of the same package is in the module of that name.
pub mod Laws
pub mod Checks
pub mod Grants
pub mod Scenario
pub mod Steps
pub mod Hooks
use namespace_lister.Base.{
  String, Bool, Option, none, some, List, [], ◌∷◌, if◌then◌else◌, ◌==◌, string_eq, Slice,
}
use namespace_lister.Kube.{Namespace}
use namespace_lister.UserInfo.{UserInfo}

-- `ContextKey`
pub data ContextKey : Type 0 where
  key_namespaces key_run_id key_user_info key_build_user_client : ContextKey
  key_namespace_lister_address key_tls_config : ContextKey

-- the texts of the keys
unfoldable pub key_text : ContextKey → String
key_text key_namespaces = "namespaces"
key_text key_run_id = "run-id"
key_text key_user_info = "user-info"
key_text key_build_user_client = "build-user-client"
key_text key_namespace_lister_address = "namespace-lister-address"
key_text key_tls_config = "tls-config"

-- A value of type `any` among those that the package stores. `Builder` is the type of
-- `BuildUserClientFunc`, and `TlsConfig` that of pointers to `tls.Config`.
pub data Value (Builder TlsConfig : Type 0) : Type 0 where
  a_builder : Builder → Value Builder TlsConfig
  a_user : UserInfo → Value Builder TlsConfig
  some_namespaces : Slice Namespace → Value Builder TlsConfig
  a_text : String → Value Builder TlsConfig
  a_tls_config : TlsConfig → Value Builder TlsConfig

-- `context.Context`: the latest value is in front.
abbrev pub Context : Type 0 → Type 0 → Type 0
Context Builder TlsConfig = List (String × Value Builder TlsConfig)

-- the zero value of `UserInfo`
abbrev pub no_user : UserInfo
no_user = record { token = ""; namespace = ""; name = ""; api_group = ""; kind = ""; groups = [] }

module _ {Builder TlsConfig : Type 0} where
  -- `ctx.Value(key)`
  unfoldable pub value : String → Context Builder TlsConfig → Option (Value Builder TlsConfig)
  value key [] = none
  value key ((k, v) ∷ ctx) = if k == key then some v else value key ctx

  -- `into`
  unfoldable pub into :
      ContextKey → Value Builder TlsConfig → Context Builder TlsConfig → Context Builder TlsConfig
  unfolding key_text
  into key v ctx = (key_text key, v) ∷ ctx

  -- `get`: `cast` is the type assertion, and `zero_value` what a failed one leaves.
  unfoldable pub get :
      {T : Type 0}
      → (Value Builder TlsConfig → Option T)
      → T
      → ContextKey
      → Context Builder TlsConfig
      → T
  unfolding value key_text
  get cast zero_value key ctx = elim (value (key_text key) ctx) [
    | none ↦ zero_value
    | some v ↦ elim (cast v) [ none ↦ zero_value | some t ↦ t ]
  ]

  -- The type assertions.
  abbrev pub as_builder : Value Builder TlsConfig → Option Builder
  as_builder (a_builder b) = some b
  as_builder _ = none

  abbrev pub as_user : Value Builder TlsConfig → Option UserInfo
  as_user (a_user u) = some u
  as_user _ = none

  abbrev pub as_namespaces : Value Builder TlsConfig → Option (Slice Namespace)
  as_namespaces (some_namespaces nn) = some nn
  as_namespaces _ = none

  abbrev pub as_text : Value Builder TlsConfig → Option String
  as_text (a_text s) = some s
  as_text _ = none

  abbrev pub as_tls_config : Value Builder TlsConfig → Option TlsConfig
  as_tls_config (a_tls_config c) = some c
  as_tls_config _ = none

  -- `WithBuildUserClientFunc`, and the function that `InvokeBuildUserClientFunc` calls; `none` is nil.
  unfoldable pub with_build_user_client_func :
      Builder → Context Builder TlsConfig → Context Builder TlsConfig
  unfolding into
  with_build_user_client_func b = into key_build_user_client (a_builder b)

  unfoldable pub build_user_client_func : Context Builder TlsConfig → Option Builder
  unfolding get
  build_user_client_func =
      get (λ v. elim (as_builder v) [ none ↦ none | some b ↦ some (some b) ]) none
        key_build_user_client

  unfoldable pub with_user : UserInfo → Context Builder TlsConfig → Context Builder TlsConfig
  unfolding into
  with_user u = into key_user_info (a_user u)

  unfoldable pub user : Context Builder TlsConfig → UserInfo
  unfolding get
  user = get as_user no_user key_user_info

  unfoldable pub with_namespaces :
      Slice Namespace → Context Builder TlsConfig → Context Builder TlsConfig
  unfolding into
  with_namespaces nn = into key_namespaces (some_namespaces nn)

  unfoldable pub namespaces_of : Context Builder TlsConfig → Slice Namespace
  unfolding get
  namespaces_of = get as_namespaces none key_namespaces

  unfoldable pub with_run_id : String → Context Builder TlsConfig → Context Builder TlsConfig
  unfolding into
  with_run_id id = into key_run_id (a_text id)

  unfoldable pub run_id : Context Builder TlsConfig → String
  unfolding get
  run_id = get as_text "" key_run_id

  unfoldable pub with_namespace_lister_address :
      String → Context Builder TlsConfig → Context Builder TlsConfig
  unfolding into
  with_namespace_lister_address a = into key_namespace_lister_address (a_text a)

  unfoldable pub namespace_lister_address : Context Builder TlsConfig → String
  unfolding get
  namespace_lister_address = get as_text "" key_namespace_lister_address

  unfoldable pub with_tls_config : TlsConfig → Context Builder TlsConfig → Context Builder TlsConfig
  unfolding into
  with_tls_config c = into key_tls_config (a_tls_config c)

  unfoldable pub tls_config : Context Builder TlsConfig → Option TlsConfig
  unfolding get
  tls_config =
      get (λ v. elim (as_tls_config v) [ none ↦ none | some c ↦ some (some c) ]) none key_tls_config
