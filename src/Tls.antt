-- ===== src/Tls.antt =====
-- TLS of the two servers: `loadTLSCert` and the flags of main.go, and of http_api_server.go the options
-- that `Start` applies to the configuration. The handshake itself is of crypto/tls.
pub mod Laws
use Prim.Native.String
use namespace_lister.Base.{
  ℕ, String, Bool, true, false, Option, none, some, List, [], ◌∷◌, if◌then◌else◌,
}
use namespace_lister.Base.Fallible.{Fallible, wrap_error}

-- `tls.Config`, by the fields that are set: `get_certificate` reads the files as they are when it is
-- called.
pub record TlsConfig (Files Certificate : Type 0) : Type 0 where
  pub min_version : ℕ
  pub get_certificate : Option (Files → Fallible Certificate)

-- `tls.VersionTLS12`
abbrev pub version_tls_12 : ℕ
version_tls_12 = 771

-- The variables of `run` that the flags set.
pub record MainFlags : Type 0 where
  pub enable_tls : Bool
  pub tls_certificate_path : String
  pub tls_certificate_key_path : String
  pub enable_metrics : Bool
  pub metrics_address : String

-- What they are without flags.
abbrev pub default_flags : MainFlags
default_flags = record {
  enable_tls = true;
  tls_certificate_path = "";
  tls_certificate_key_path = "";
  enable_metrics = true;
  metrics_address = ":9100";
}

-- `fmt.Errorf("unable to load TLS certificates: %w", err)`
abbrev pub unable_to_load : String → String
unable_to_load err = String.◌++◌ "unable to load TLS certificates: " err

-- `func(*tls.Config)`
abbrev pub TlsOpt : Type 0 → Type 0 → Type 0
TlsOpt Files Certificate = TlsConfig Files Certificate → TlsConfig Files Certificate

-- `APIServer`, without the embedded `http.Server`
pub record ApiServer (Files Certificate : Type 0) : Type 0 where
  pub use_tls : Bool
  pub tls_opts : List (TlsOpt Files Certificate)

-- `server.Options` of the metrics server, by what the program chooses
pub record MetricsServerOptions (Files Certificate : Type 0) : Type 0 where
  pub secure_serving : Bool
  pub tls_opts : List (TlsOpt Files Certificate)
  pub bind_address : String
  pub with_authentication_and_authorization : Bool

module _ {Files Certificate : Type 0} where
  -- The fields that `NewAPIServer` does not set.
  abbrev pub new_api_server : ApiServer Files Certificate
  new_api_server = record { use_tls = false; tls_opts = [] }

  -- `WithTLS`
  unfoldable pub with_tls : Bool → ApiServer Files Certificate → ApiServer Files Certificate
  with_tls enable_tls s = record s { use_tls = enable_tls }

  -- `WithTLSOpts`
  unfoldable pub with_tls_opts :
      List (TlsOpt Files Certificate) → ApiServer Files Certificate → ApiServer Files Certificate
  with_tls_opts tls_opts s = record s { tls_opts = tls_opts }

  -- the loop of `Start` over the options
  unfoldable pub apply_opts : List (TlsOpt Files Certificate) → TlsOpt Files Certificate
  apply_opts [] config = config
  apply_opts (fun ∷ funs) config = apply_opts funs (fun config)

  -- The configuration that `Start` serves with; `none` is to serve without TLS.
  unfoldable pub start_config : ApiServer Files Certificate → Option (TlsConfig Files Certificate)
  unfolding apply_opts
  start_config s =
      if s.use_tls
      then some
          (apply_opts s.tls_opts (record { min_version = version_tls_12; get_certificate = none }))
      else none

-- `load_x509_key_pair` is `tls.LoadX509KeyPair`, with the files that it reads.
module _ {Files Certificate : Type 0}
    (load_x509_key_pair : Files → (cert_path key_path : String) → Fallible Certificate) where
  -- the function `getCertificate` of `loadTLSCert`
  unfoldable pub get_certificate : (cert_path key_path : String) → Files → Fallible Certificate
  get_certificate cert_path key_path files =
      wrap_error unable_to_load (load_x509_key_pair files cert_path key_path)

  -- `loadTLSCert`
  unfoldable pub load_tls_cert : (cert_path key_path : String) → TlsOpt Files Certificate
  unfolding get_certificate
  load_tls_cert cert_path key_path config = record config {
    get_certificate = some (get_certificate cert_path key_path);
  }

  -- the API server of `run`, when it is started
  unfoldable pub main_server : MainFlags → ApiServer Files Certificate
  unfolding with_tls with_tls_opts load_tls_cert
  main_server flags =
      with_tls_opts (load_tls_cert flags.tls_certificate_path flags.tls_certificate_key_path ∷ [])
        (with_tls flags.enable_tls new_api_server)

  -- the options of the metrics server of `run`, if it is enabled
  unfoldable pub metrics_server_options :
      MainFlags → Option (MetricsServerOptions Files Certificate)
  unfolding load_tls_cert
  metrics_server_options flags =
      if flags.enable_metrics
      then some (record {
        secure_serving = flags.enable_tls;
        tls_opts = load_tls_cert flags.tls_certificate_path flags.tls_certificate_key_path ∷ [];
        bind_address = flags.metrics_address;
        with_authentication_and_authorization = true;
      })
      else none
