-- ===== src/Tests/Setup.antt =====
-- Witnesses: clients of the tests, and TLS.
use namespace_lister.Base.{String, true, false, Option, none, some, string_eq}
use namespace_lister.Base.Fallible.{Fallible, done, failed}
use namespace_lister.Env.{Getenv, RestConfig}
use namespace_lister.Clients.{ClientGo}
use namespace_lister.Tls.{default_flags, metrics_server_options}
use namespace_lister.Tls.Laws.{Serves, MetricsServes, servers-Serves}

abbrev insecure_env : Getenv
insecure_env key = "true"

abbrev verified : RestConfig
verified = record { insecure = false; ca_data = some "a certificate"; ca_file = "ca.crt" }

-- A library that refuses nothing; the clients are the configurations that they are made of.
abbrev obliging : ClientGo String String RestConfig RestConfig RestConfig
obliging = record {
  load = done "a file";
  client_config = λ api_config. done verified;
  add_to_scheme = none;
  new = λ cfg options. done cfg;
  http_client_for = λ cfg. done cfg;
  new_dynamic_rest_mapper = λ cfg hc. done cfg;
}

-- The files are a certificate, or none.
abbrev load : Option String → (cert_path key_path : String) → Fallible String
load none cert_path key_path = failed "no such file"
load (some certificate) cert_path key_path = done certificate

servers-Serves_example :
    Serves load default_flags (some "first") true
    × MetricsServes load default_flags
        (some "first")
        (record { min_version = 770; get_certificate = none })
        (metrics_server_options load default_flags)
servers-Serves_example =
    servers-Serves load default_flags (some "first")
      (record { min_version = 770; get_certificate = none })
