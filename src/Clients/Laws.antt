-- ===== src/Clients/Laws.antt =====
-- The clients of the acceptance tests: the configuration that they are made of, and their errors.
use namespace_lister.Base.{String, true, none, some, ok, panic, failed_must, ◌≡◌, ◌≢◌, ◌⊎◌}
use namespace_lister.Base.Fallible.{Fallible, done, failed, ◌and_then◌}
use namespace_lister.Env.{Getenv, RestConfig}
use namespace_lister.Clients.{
  ClientGo, error_building_config, build_default_host_client, build_default_rest_mapper,
}

-- A configuration without verification of the server's certificate.
abbrev pub IsInsecure : RestConfig → Type 0
IsInsecure cfg = (cfg.insecure ≡ true) × (cfg.ca_data ≡ none) × (cfg.ca_file ≡ "")

-- The configuration is insecure where the environment asks for that.
abbrev pub CanBeInsecure : Getenv → RestConfig → Type 0
CanBeInsecure getenv cfg = (getenv "E2E_USE_INSECURE_TLS" ≢ "true") ⊎ IsInsecure cfg

module _ {ApiConfig Scheme Client HttpClient Mapper : Type 0} (getenv : Getenv)
    (go : ClientGo ApiConfig Scheme Client HttpClient Mapper) where
  -- What the builders with the default configuration do, with its configuration or its error.
  abbrev pub Defaults : Fallible RestConfig → Type 0
  Defaults (done cfg) =
      CanBeInsecure getenv cfg
      × (build_default_rest_mapper getenv go
          ≡ (go.http_client_for cfg and_then λ hc. go.new_dynamic_rest_mapper cfg hc))
      × ((build_default_host_client getenv go ≡ ok (go.new cfg (record { scheme = none })))
          ⊎ ((build_default_host_client getenv go ≡ panic failed_must)
              × ((err : String) × (go.add_to_scheme ≡ some err))))
  Defaults (failed err) =
      (build_default_rest_mapper getenv go ≡ failed err)
      × (build_default_host_client getenv go ≡ ok (failed (error_building_config err)))
      × ((cause : String) × (err ≡ error_building_config cause))

  -- What a configuration or an error comes from.
  abbrev Origin : Fallible RestConfig → Type 0
  Origin (done cfg) = CanBeInsecure getenv cfg
  Origin (failed err) = (cause : String) × (err ≡ error_building_config cause)
