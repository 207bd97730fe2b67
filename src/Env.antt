-- ===== src/Env.antt =====
-- What is read of the environment: env.go, the headers of authenticator.go, `GetLogLevel` of
-- internal/log/log.go, and, for the acceptance tests, acceptance/pkg/rest/config.go and
-- acceptance/pkg/suite/env.go. An environment is `os.Getenv`, with the empty text for what is not set.
use namespace_lister.Base.{
  String, Bool, true, false, Option, none, some, List, [], ◌∷◌, if◌then◌else◌, ◌==◌, string_eq,
}
use namespace_lister.Base.Int.{ℤ, pos}

abbrev pub Getenv : Type 0
Getenv = String → String

-- `cmp.Or`
unfoldable pub cmp_or : String → String → String
cmp_or s default = if s == "" then default else s

abbrev pub default_addr : String
default_addr = ":8080"

-- `getAddress`
unfoldable pub get_address : Getenv → String
unfolding cmp_or
get_address getenv = cmp_or (getenv "ADDRESS") default_addr

-- `GetUsernameHeaderFromEnv`
unfoldable pub get_username_header_from_env : Getenv → String
get_username_header_from_env getenv = getenv "AUTH_USERNAME_HEADER"

-- `GetGroupsHeaderFromEnv`
unfoldable pub get_groups_header_from_env : Getenv → String
get_groups_header_from_env getenv = getenv "AUTH_GROUPS_HEADER"

-- `slog.LevelError`
abbrev pub level_error : ℤ
level_error = pos 8

-- `GetLogLevel`; `atoi` is `strconv.Atoi`, which has no result for a text that is no number.
unfoldable pub get_log_level : (atoi : String → Option ℤ) → Getenv → ℤ
get_log_level atoi getenv = elim (atoi (getenv "LOG_LEVEL")) [ none ↦ level_error | some n ↦ n ]

-- The fields of `rest.Config` that the tests change.
pub record RestConfig : Type 0 where
  pub insecure : Bool
  pub ca_data : Option String
  pub ca_file : String

-- `setTLSFromEnv`
unfoldable pub set_tls_from_env : Getenv → RestConfig → RestConfig
set_tls_from_env getenv cfg =
    if getenv "E2E_USE_INSECURE_TLS" == "true"
    then record { insecure = true; ca_data = none; ca_file = "" }
    else cfg

abbrev pub mutation_funcs : Getenv → List (RestConfig → RestConfig)
mutation_funcs getenv = set_tls_from_env getenv ∷ []

-- the loop of `mutateConfig`
abbrev pub mutate_each : List (RestConfig → RestConfig) → RestConfig → RestConfig
mutate_each [] cfg = cfg
mutate_each (f ∷ fs) cfg = mutate_each fs (f cfg)

-- `mutateConfig`
unfoldable pub mutate_config : Getenv → RestConfig → RestConfig
unfolding set_tls_from_env
mutate_config getenv cfg = mutate_each (mutation_funcs getenv) cfg

-- `EnvKonfluxAddressOrDefault`
unfoldable pub env_konflux_address_or_default : Getenv → String → String
unfolding cmp_or
env_konflux_address_or_default getenv address = cmp_or (getenv "KONFLUX_ADDRESS") address

-- `BuildTLSConfig`, by its field `InsecureSkipVerify`
unfoldable pub build_tls_config : Getenv → Bool
build_tls_config getenv = if getenv "E2E_USE_INSECURE_TLS" == "true" then true else false
