-- ===== src/Http/Authn.antt =====
-- `Authenticator` of authenticator.go and `AddAuthnMiddleware` of
-- internal/http/middleware/http_auth_middleware.go.
pub mod Laws
use namespace_lister.Base.Int.{pos}
use namespace_lister.Base.{
  ◌>>=◌, String, Bool, true, not, Option, none, some, ok, if◌then◌else◌, ◌==◌, string_eq,
}
use namespace_lister.Http.{Request, User, Handler, header_get, write_header, log_entry}

-- What `AuthenticateRequest` returns: the response, whether the request is authenticated, the error.
pub record Answer : Type 0 where
  pub response : Option User
  pub authenticated : Bool
  pub error : Option String

-- `authenticator.Request`
abbrev pub AuthRequest : Type 0
AuthRequest = Request → Answer

-- `Authenticator`: `next` is the delegating authenticator of k8s.io/apiserver.
pub record Authenticator : Type 0 where
  pub username_header : String
  pub groups_header : String
  pub next : AuthRequest

-- `AuthenticateRequest`
unfoldable pub authenticate_request : Authenticator → AuthRequest
unfolding header_get
authenticate_request a req =
    let username = header_get req a.username_header in
    if not (a.username_header == "")
    then (if not (username == "")
        then record {
          response = some (record { name = username; groups = req.headers a.groups_header });
          authenticated = true;
          error = none;
        }
        else a.next req)
    else a.next req

-- `AddAuthnMiddleware`
unfoldable pub add_authn_middleware : AuthRequest → Handler → Handler
unfolding write_header log_entry
add_authn_middleware ar next ctx r w =
    let rs = ar r in
    elim rs.error [
      | some err ↦ (do
        w' ← write_header (pos 401) w
        ok (log_entry "error authenticating request" w'))
      | none ↦
          if not rs.authenticated
          then write_header (pos 401) w
          else next (record ctx { user_details = rs.response }) r w
    ]
