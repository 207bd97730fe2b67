-- ===== src/Tls/Laws.antt =====
-- What the two servers present to a client that connects over TLS.
use namespace_lister.Base.{
  String, Bool, Bool-cases, true, false, Option, none, some, ◌≡◌, refl, inl, inr,
}
use namespace_lister.Base.Fallible.{Fallible, wrap_error}
use namespace_lister.Tls.{
  TlsConfig, MainFlags, version_tls_12, unable_to_load, get_certificate, load_tls_cert, apply_opts,
  start_config, main_server, MetricsServerOptions, metrics_server_options, with_tls, with_tls_opts,
}

module _ {Files Certificate : Type 0}
    (load_x509_key_pair : Files → (cert_path key_path : String) → Fallible Certificate) where
  -- What a server with this configuration presents, by the files at that time.
  abbrev pub presented : TlsConfig Files Certificate → Files → Option (Fallible Certificate)
  presented config files = elim config.get_certificate [ none ↦ none | some f ↦ some (f files) ]

  -- The certificate that the flags name, as the files hold it, or the error of reading it.
  abbrev pub current : MainFlags → Files → Fallible Certificate
  current flags files =
      wrap_error unable_to_load
        (load_x509_key_pair files flags.tls_certificate_path flags.tls_certificate_key_path)

  -- Whether the API server of `run` serves with the certificate, and only so.
  abbrev pub Serves : MainFlags → Files → Bool → Type 0
  Serves flags files false = start_config (main_server load_x509_key_pair flags) ≡ none
  Serves flags files true =
      (config : TlsConfig Files Certificate) × (start_config (main_server load_x509_key_pair flags)
        ≡ some config)
      × (config.min_version ≡ version_tls_12)
      × (presented config files ≡ some (current flags files))

  serves_lem :
      (flags : MainFlags) (files : Files) (b : Bool) → flags.enable_tls ≡ b → Serves flags files b
  unfolding start_config apply_opts main_server with_tls with_tls_opts load_tls_cert get_certificate
  serves_lem flags files true e = (
    record {
      min_version = version_tls_12;
      get_certificate = some (
          get_certificate load_x509_key_pair flags.tls_certificate_path
            flags.tls_certificate_key_path);
    },
    rw e refl,
    refl,
    refl,
  )
  serves_lem flags files false e = rw e refl

  -- Whether the metrics server of `run` has the same certificate in whatever configuration it starts
  -- from, is as secure as the API server, and asks who the caller is.
  abbrev pub MetricsServes :
      MainFlags
      → Files
      → TlsConfig Files Certificate
      → Option (MetricsServerOptions Files Certificate)
      → Type 0
  MetricsServes flags files base none = flags.enable_metrics ≡ false
  MetricsServes flags files base (some options) =
      (flags.enable_metrics ≡ true)
      × (options.secure_serving ≡ flags.enable_tls)
      × (options.bind_address ≡ flags.metrics_address)
      × (options.with_authentication_and_authorization ≡ true)
      × (presented (apply_opts options.tls_opts base) files ≡ some (current flags files))

  metrics_server_options-MetricsServes :
      (flags : MainFlags) (files : Files) (base : TlsConfig Files Certificate)
      → MetricsServes flags files base (metrics_server_options load_x509_key_pair flags)
  unfolding metrics_server_options apply_opts load_tls_cert get_certificate
  metrics_server_options-MetricsServes flags files base = elim (Bool-cases flags.enable_metrics) [
    | inl on ↦ rw on (refl, refl, refl, refl, refl)
    | inr off ↦ rw off refl
  ]

  -- The API server serves without TLS exactly if the flags say so; otherwise with TLS 1.2 at least and,
  -- at any time, the certificate that the files named by the flags hold at that time, or the error of
  -- reading them. The metrics server, exactly if it is enabled, presents the same certificate at that
  -- time, whatever configuration it starts from, serves over TLS exactly if the API server does, at the
  -- address of the flags and with authentication and authorization.
  pub servers-Serves :
      (flags : MainFlags) (files : Files) (base : TlsConfig Files Certificate)
      → Serves flags files flags.enable_tls
        × MetricsServes flags files base (metrics_server_options load_x509_key_pair flags)
  servers-Serves flags files base = (
    serves_lem flags files flags.enable_tls refl,
    metrics_server_options-MetricsServes flags files base,
  )
