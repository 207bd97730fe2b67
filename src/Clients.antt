-- ===== src/Clients.antt =====
-- acceptance/pkg/rest/client.go: how the acceptance tests make the clients of the host cluster. What
-- client-go and controller-runtime answer is a parameter.
pub mod Laws
use Prim.Native.String
use namespace_lister.Base.{String, Option, none, some, Outcome, ok, panic, failed_must, ◌>>=◌}
use namespace_lister.Base.Fallible.{Fallible, done, failed, ◌and_then◌, wrap_error}
use namespace_lister.Env.{Getenv, RestConfig, mutate_config}

-- `client.Options`, by its scheme
pub record ClientOptions (Scheme : Type 0) : Type 0 where
  pub scheme : Option Scheme

-- The calls of client-go and controller-runtime: `Load` of the loading rules, `ClientConfig`,
-- `AddToScheme` on a new scheme by its error, `client.New`, `HTTPClientFor` and `NewDynamicRESTMapper`.
pub record ClientGo (ApiConfig Scheme Client HttpClient Mapper : Type 0) : Type 0 where
  pub load : Fallible ApiConfig
  pub client_config : ApiConfig → Fallible RestConfig
  pub add_to_scheme : Option String
  pub new : RestConfig → ClientOptions Scheme → Fallible Client
  pub http_client_for : RestConfig → Fallible HttpClient
  pub new_dynamic_rest_mapper : RestConfig → HttpClient → Fallible Mapper

-- `fmt.Errorf("error building config: %v", err)`
abbrev pub error_building_config : String → String
error_building_config err = String.◌++◌ "error building config: " err

-- `utilruntime.Must`
unfoldable pub must : Option String → Outcome {0} Unit
must none = ok tt
must (some err) = panic failed_must

module _ {ApiConfig Scheme Client HttpClient Mapper : Type 0} (getenv : Getenv)
    (go : ClientGo ApiConfig Scheme Client HttpClient Mapper) where
  -- `NewDefaultClientConfig`
  unfoldable pub new_default_client_config : Fallible RestConfig
  unfolding mutate_config
  new_default_client_config = wrap_error error_building_config go.load and_then λ api_config.
      wrap_error error_building_config (go.client_config api_config) and_then λ cfg.
      done (mutate_config getenv cfg)

  -- `BuildClientWithOptions`
  unfoldable pub build_client_with_options :
      RestConfig → ClientOptions Scheme → Outcome (Fallible Client)
  unfolding must
  build_client_with_options cfg options = elim options.scheme [
    | none ↦ must go.add_to_scheme >>= λ u. ok (go.new cfg options)
    | some s ↦ ok (go.new cfg options)
  ]

  -- `BuildClient`
  unfoldable pub build_client : RestConfig → Outcome (Fallible Client)
  unfolding build_client_with_options
  build_client cfg = build_client_with_options cfg (record { scheme = none })

  -- `BuildDefaultHostClient`
  unfoldable pub build_default_host_client : Outcome (Fallible Client)
  unfolding build_client new_default_client_config
  build_default_host_client = elim (wrap_error error_building_config new_default_client_config) [
    | failed err ↦ ok (failed err)
    | done cfg ↦ build_client cfg
  ]

  -- `BuildRESTMapper`
  unfoldable pub build_rest_mapper : RestConfig → Fallible Mapper
  build_rest_mapper cfg = go.http_client_for cfg and_then λ hc. go.new_dynamic_rest_mapper cfg hc

  -- `BuildDefaultRESTMapper`
  unfoldable pub build_default_rest_mapper : Fallible Mapper
  unfolding build_rest_mapper new_default_client_config
  build_default_rest_mapper = new_default_client_config and_then build_rest_mapper
