-- ===== src/Http/Server.antt =====
-- `NewAPIServer` of http_api_server.go: the routes and the order of the middlewares.
pub mod Laws
use namespace_lister.Base.Int.{pos}
use namespace_lister.Base.{
  String, Bool, true, false, ◌&&◌, ◌||◌, Option, none, some, List, [], ◌∷◌, ok, if◌then◌else◌, ◌==◌,
  string_eq,
}
use namespace_lister.Http.{Request, Context, Writer, Handler, set_header}
use namespace_lister.Http.Authn.{AuthRequest, add_authn_middleware}
use namespace_lister.Http.Handlers.{
  Encoding, http_error, list_namespaces_handler, add_log_correlation_id_middleware,
  add_log_request_middleware, add_inject_logger_middleware, healthz,
}
use namespace_lister.Lister.{NamespaceLister}

-- A pattern with a method that is registered at the `http.ServeMux`, and its handler.
pub record Route : Type 0 where
  pub path : String
  pub handler : Handler

-- The methods that a pattern `GET /…` of `http.ServeMux` matches.
abbrev pub is_get : String → Bool
is_get method = method == "GET" || method == "HEAD"

-- The instrumenting handlers of promhttp over the metrics of `newHTTPMetrics`.
pub record Instruments : Type 0 where
  pub duration : Handler → Handler
  pub counter : Handler → Handler
  pub response_size : Handler → Handler
  pub in_flight : Handler → Handler

-- `AddMetricsMiddleware` of internal/http/middleware/metrics_http.go, with the instruments of the
-- registry, if there is one.
unfoldable pub add_metrics_middleware : Option Instruments → Handler → Handler
add_metrics_middleware none handler = handler
add_metrics_middleware (some m) handler =
    m.duration (m.counter (m.response_size (m.in_flight handler)))

module _ (enc : Encoding) where
  -- `http.ServeMux`, for patterns `GET /…` without wildcards and paths that are clean.
  unfoldable pub serve_mux : List Route → Handler
  unfolding http_error
  serve_mux [] ctx r w = http_error enc "404 page not found" (pos 404) w
  serve_mux (route ∷ routes) ctx r w =
      let rest = serve_mux routes ctx r w in
      if r.path == route.path
      then if is_get r.method
        then route.handler ctx r w
        else http_error enc "Method Not Allowed" (pos 405) (set_header "Allow" "GET, HEAD" w)
      else rest

  -- the handler of `patternGetNamespaces`
  unfoldable pub get_namespaces : Option Instruments → AuthRequest → NamespaceLister → Handler
  unfolding add_metrics_middleware add_inject_logger_middleware add_log_correlation_id_middleware
      add_authn_middleware add_log_request_middleware list_namespaces_handler
  get_namespaces reg ar lister = add_metrics_middleware reg (
      add_inject_logger_middleware (
        add_log_correlation_id_middleware enc (
          add_authn_middleware ar
            (add_log_request_middleware (list_namespaces_handler enc lister)))))

  -- the handler of `NewAPIServer`
  unfoldable pub api_server : Option Instruments → AuthRequest → NamespaceLister → Handler
  unfolding serve_mux get_namespaces healthz
  api_server reg ar lister = serve_mux (
      record { path = "/api/v1/namespaces"; handler = get_namespaces reg ar lister }
      ∷ record { path = "/healthz"; handler = healthz }
      ∷ record { path = "/readyz"; handler = healthz }
      ∷ [])
