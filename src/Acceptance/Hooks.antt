-- ===== src/Acceptance/Hooks.antt =====
-- acceptance/pkg/suite: the hooks of hooks.go that run before a scenario, and the one of env.go.
use Prim.Native.String
use namespace_lister.Base.{String, Bool, Option, none, some}
use namespace_lister.UserInfo.{user_info_from_service_account}
use namespace_lister.Env.{Getenv, env_konflux_address_or_default, build_tls_config}
use namespace_lister.Acceptance.{
  Context, with_user, with_run_id, with_namespace_lister_address, with_tls_config,
}

-- The error of `Create`, if it is that the object exists already, or another.
pub data CreateError : Type 0 where
  already_exists : CreateError
  other_error : String → CreateError

abbrev pub unless_exists : Option CreateError → Option String
unless_exists none = none
unless_exists (some already_exists) = none
unless_exists (some (other_error e)) = some e

-- What the cluster answers: the error of `BuildDefaultHostClient`, that of `Create` of the service
-- account, and the token or the error of its token request.
pub record Answers : Type 0 where
  pub build_error : Option String
  pub account_error : Option CreateError
  pub token_error : Option String
  pub token : String

module _ {Builder TlsConfig : Type 0} where
  -- `InjectRunId`
  unfoldable pub inject_run_id : String → Context Builder TlsConfig → Context Builder TlsConfig
  unfolding with_run_id
  inject_run_id id ctx = with_run_id id ctx

  -- `PrepareTestRunServiceAccount` for the scenario `id`
  unfoldable pub prepare_test_run_service_account :
      Answers → String → Context Builder TlsConfig → Context Builder TlsConfig × Option String
  unfolding with_user user_info_from_service_account
  prepare_test_run_service_account a id ctx = elim a.build_error [
    | some e ↦ (ctx, some e)
    | none ↦ elim (unless_exists a.account_error) [
      | some e ↦ (ctx, some e)
      | none ↦ elim a.token_error [
        | some e ↦ (ctx, some e)
        | none ↦ (
          with_user
              (user_info_from_service_account "acceptance-tests" (String.◌++◌ "user-" id) a.token)
              ctx,
          none,
        )
      ]
    ]
  ]

  -- `InjectServiceAddresses`; `tls_config_of` makes the configuration of its field
  -- `InsecureSkipVerify`.
  unfoldable pub inject_service_addresses :
      (Bool → TlsConfig) → Getenv → String → Context Builder TlsConfig → Context Builder TlsConfig
  unfolding with_tls_config with_namespace_lister_address env_konflux_address_or_default
      build_tls_config
  inject_service_addresses tls_config_of getenv default_address ctx =
      with_tls_config (tls_config_of (build_tls_config getenv))
        (with_namespace_lister_address (env_konflux_address_or_default getenv default_address) ctx)
