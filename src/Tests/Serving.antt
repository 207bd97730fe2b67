-- ===== src/Tests/Serving.antt =====
-- Witnesses: requests to the API server.
use namespace_lister.Base.Int.{pos}
use namespace_lister.Base.{
  ℕ, ◌≡◌, inr, refl, String, String_dec, true, false, none, some, List, [], ◌∷◌, map, ◌==◌,
  if◌then◌else◌, string_eq, ok, in_order,
}
use namespace_lister.Kube.{subject_eq}
use namespace_lister.Synch.{synch}
use namespace_lister.Lister.{
  NamespaceList, NamespaceLister, status_error, success, failure, group_subject, parse_username,
  new_subject_namespace_lister,
}
use namespace_lister.Lister.Access.{ListsAccess}
use namespace_lister.Http.{Request, User, Context, Writer, no_reply, header_get}
use namespace_lister.Http.Authn.{Answer, AuthRequest, Authenticator, authenticate_request}
use namespace_lister.Http.Handlers.{Encoding}
use namespace_lister.Http.Server.{Instruments, api_server}
use namespace_lister.Http.Server.Laws.{Reports, api_server_unauthenticated, api_server_failure}
use namespace_lister.Service.{api_server-may_get}
use namespace_lister.Tests.{quiet, two_namespaces, alice, alpha, beta}

abbrev pub some_bytes : List ℕ
some_bytes = 123 ∷ 125 ∷ []

abbrev pub encoding : Encoding
encoding = record {
  bytes = λ s. 0 ∷ [];
  marshal = λ nn. (some_bytes, none);
  write_error = none;
  new_uuid = "0c1d";
}

-- An encoding that cannot marshal.
abbrev mute : Encoding
mute = record encoding { marshal = λ nn. ([], some "unsupported value") }

abbrev headers_of : String → List String
headers_of name =
    if name == "X-User" then "alice" ∷ [] else if name == "X-Groups" then "dev" ∷ [] else []

abbrev pub asking : Request
asking = record { method = "GET"; path = "/api/v1/namespaces"; headers = headers_of }

abbrev pub blank : Context
blank = record { user_details = none; has_logger = false; correlation_id = none }

abbrev rejected : Answer
rejected = record { response = none; authenticated = false; error = none }

abbrev reject_all : AuthRequest
reject_all r = rejected

abbrev alice_user : User
alice_user = record { name = "alice"; groups = "dev" ∷ [] }

abbrev accept_all : AuthRequest
accept_all r = record { response = some alice_user; authenticated = true; error = none }

abbrev pub by_header : Authenticator
by_header = record { username_header = "X-User"; groups_header = "X-Groups"; next = reject_all }

abbrev empty_list : NamespaceList
empty_list = record { kind = "NamespaceList"; api_version = "v1"; items = none }

abbrev list_nothing : NamespaceLister
list_nothing username groups = ok (success empty_list)

abbrev list_fails : NamespaceLister
list_fails username groups = ok (failure (status_error (pos 503) "try later"))

-- Instruments that answer as the handler does.
abbrev plain : Instruments
plain = record { duration = λ h. h; counter = λ h. h; response_size = λ h. h; in_flight = λ h. h }

api_server-may_get_example :
    (nn : NamespaceList) × (reply : Writer) × (api_server encoding
        (some plain)
        (authenticate_request by_header)
        (new_subject_namespace_lister in_order (synch quiet two_namespaces).0.cache)
        blank
        asking
        no_reply
      ≡ ok reply)
    × (reply.status ≡ some 200)
    × (reply.body ≡ some_bytes)
    × ListsAccess quiet (alpha ∷ beta ∷ []) (alice ∷ map group_subject ("dev" ∷ [])) nn.items
unfolding parse_username header_get String_dec string_eq
api_server-may_get_example =
    api_server-may_get encoding (some plain)
      (λ h c r w. refl, λ h c r w. refl, λ h c r w. refl, λ h c r w. refl) (λ nn. refl) refl
      by_header blank asking (refl, refl) (cc) (cc) quiet in_order two_namespaces alice refl
      (λ i. refl) refl refl

api_server_unauthenticated_example :
    (w : Writer) × (api_server encoding none reject_all list_nothing blank asking no_reply ≡ ok w)
    × (w.status ≡ some 401)
    × (w.body ≡ [])
    × (w.headers ≡ [])
unfolding String_dec string_eq
api_server_unauthenticated_example =
    api_server_unauthenticated encoding none tt blank asking (refl, refl) reject_all list_nothing
      (inr refl)

api_server_failure_example :
    Reports (pos 503) (api_server encoding none accept_all list_fails blank asking no_reply)
unfolding String_dec string_eq
api_server_failure_example =
    api_server_failure encoding none tt blank asking (refl, refl) accept_all list_fails alice_user
      (failure (status_error (pos 503) "try later")) (pos 503) refl refl refl refl refl
