-- ===== src/Http.antt =====
-- The parts of net/http and of the request's context that the program uses, with the environment's
-- logger left out of the context except for the correlation id that it carries.
pub mod Authn
pub mod Handlers
pub mod Server
use namespace_lister.Base.Int.{ℤ, pos, negsuc}
use namespace_lister.Base.{
  true, false, not, ◌&&◌, ◌||◌, ltb, leb, nat_eq, ok, panic, invalid_status_code, ℕ, String, Bool,
  Option, none, some, List, [], ◌∷◌, ◌++◌, Outcome, if◌then◌else◌, ◌==◌, string_eq,
}

-- `http.Request`; `headers` is `Header.Values`, which gives the values under a name, the first first.
pub record Request : Type 0 where
  pub method : String
  pub path : String
  pub headers : String → List String

-- `Header.Get`: the first value, or the empty text.
abbrev pub first_or_empty : List String → String
first_or_empty [] = ""
first_or_empty (v ∷ vs) = v

unfoldable pub header_get : Request → String → String
header_get r name = first_or_empty (r.headers name)

-- `user.DefaultInfo`, in an `authenticator.Response`
pub record User : Type 0 where
  pub name : String
  pub groups : List String

-- The values that the middlewares put into the context.
pub record Context : Type 0 where
  pub user_details : Option User
  pub has_logger : Bool
  pub correlation_id : Option String

-- `http.ResponseWriter`: the status once it is sent, the headers and the body; and the log, the
-- latest entry last.
pub record Writer : Type 0 where
  pub status : Option ℕ
  pub headers : List (String × String)
  pub body : List ℕ
  pub log : List String

-- `http.Handler`, with the context beside the request
abbrev pub Handler : Type 0
Handler = Context → Request → Writer → Outcome Writer

abbrev pub or_status : Option ℕ → ℕ → ℕ
or_status none code = code
or_status (some sent) code = sent

abbrev pub is_sent : Option ℕ → Bool
is_sent none = false
is_sent (some code) = true

-- The codes 100 to 199 but for 101, which come before the answer.
abbrev pub is_informational : ℕ → Bool
is_informational code = leb 100 code && leb code 199 && not (code == 101)

-- `WriteHeader`: nothing is done if a status is sent; a code below 100 or above 999 panics; one that is
-- informational leaves the status to be sent; any other is the status.
unfoldable pub write_header : ℤ → Writer → Outcome Writer
write_header (negsuc n) w = if is_sent w.status then ok w else panic invalid_status_code
write_header (pos code) w =
    if is_sent w.status
    then ok w
    else if ltb code 100 || ltb 999 code
    then panic invalid_status_code
    else if is_informational code
    then ok w
    else ok (record w { status = some code })

-- `Header().Add`
unfoldable pub add_header : String → String → Writer → Writer
add_header key value w = record w { headers = w.headers ++ (key, value) ∷ [] }

drop_header : String → List (String × String) → List (String × String)
drop_header key [] = []
drop_header key ((k, v) ∷ hs) =
    let rest = drop_header key hs in if k == key then rest else (k, v) ∷ rest

-- `Header().Set`
unfoldable pub set_header : String → String → Writer → Writer
unfolding drop_header
set_header key value w = record w { headers = drop_header key w.headers ++ (key, value) ∷ [] }

-- An answer with one of these statuses has no body.
abbrev pub is_bodiless : ℕ → Bool
is_bodiless code = ltb code 200 || code == 204 || code == 304

-- `Write`: it sends the status 200 if none is sent, and nothing where the status allows no body.
unfoldable pub write : List ℕ → Writer → Writer
write data_bytes w =
    let code = or_status w.status 200 in
    record w {
      status = some code;
      body = if is_bodiless code then w.body else w.body ++ data_bytes;
    }

unfoldable pub log_entry : String → Writer → Writer
log_entry m w = record w { log = w.log ++ m ∷ [] }

abbrev pub no_reply : Writer
no_reply = record { status = none; headers = []; body = []; log = [] }
