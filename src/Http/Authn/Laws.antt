-- ===== src/Http/Authn/Laws.antt =====
-- Whom the `Authenticator` of authenticator.go lets in.
use namespace_lister.Base.{◌≡◌, ◌≢◌, ◌⊎◌, true, none, some, arith, string_eq}
use namespace_lister.Http.{Request, header_get}
use namespace_lister.Http.Authn.{Authenticator, authenticate_request}

-- With a header configured for the username and present in the request, the user is the one that the
-- request's headers name, with all the groups given, and the delegate has no say. Without the one or
-- the other the delegate alone decides, and the request's groups are ignored.
pub authenticate_request_lem :
    (a : Authenticator) (r : Request)
    → (a.username_header ≢ ""
        → header_get r a.username_header ≢ ""
        → authenticate_request a r ≡ record {
          response = some (record {
            name = header_get r a.username_header;
            groups = r.headers a.groups_header;
          });
          authenticated = true;
          error = none;
        })
      × ((a.username_header ≡ "") ⊎ (header_get r a.username_header ≡ "")
          → authenticate_request a r ≡ a.next r)
unfolding authenticate_request
authenticate_request_lem a r = (λ p q. ground arith, λ h. ground arith)
