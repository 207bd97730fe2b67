-- ===== src/Acceptance/Laws.antt =====
-- What the steps of a test store in a context is read back.
use namespace_lister.Base.{◌≡◌, refl, String, String_dec, some, Slice, string_eq}
use namespace_lister.Kube.{Namespace}
use namespace_lister.UserInfo.{UserInfo}
use namespace_lister.Acceptance.{
  Context, value, with_build_user_client_func, build_user_client_func, with_user, user,
  with_namespaces, namespaces_of, with_run_id, run_id, with_namespace_lister_address,
  namespace_lister_address, with_tls_config, tls_config,
}

module _ {Builder TlsConfig : Type 0} where
  -- The context of a scenario, as the hooks and the steps of the suite fill it one after the other.
  abbrev filled :
      String
      → TlsConfig
      → String
      → Builder
      → UserInfo
      → Slice Namespace
      → Context Builder TlsConfig
      → Context Builder TlsConfig
  filled address config id builder u nn ctx = with_namespaces nn (
      with_user u (
        with_build_user_client_func builder
          (with_run_id id (with_tls_config config (with_namespace_lister_address address ctx)))))

  -- No key of the context stands in another's way: after all six values have been stored, whatever the
  -- context held before, each of them is read back, and a user stored later replaces the user alone.
  get-into :
      (address : String) (config : TlsConfig) (id : String) (builder : Builder) (u u' : UserInfo)
      (nn : Slice Namespace) (ctx : Context Builder TlsConfig)
      → let c = with_user u' (filled address config id builder u nn ctx) in
        (user c ≡ u')
        × (namespaces_of c ≡ nn)
        × (run_id c ≡ id)
        × (build_user_client_func c ≡ some builder)
        × (tls_config c ≡ some config)
        × (namespace_lister_address c ≡ address)
  unfolding value user namespaces_of run_id build_user_client_func tls_config
      namespace_lister_address with_namespaces with_user with_build_user_client_func with_run_id
      with_tls_config with_namespace_lister_address string_eq String_dec
  get-into address config id builder u u' nn ctx = (refl, refl, refl, refl, refl, refl)
