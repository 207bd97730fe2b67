-- ===== src/Http/Handlers.antt =====
-- `ListNamespacesHandler` of http_api_handler_list.go, the middlewares of
-- internal/http/middleware/http_log_middlewares.go, and `healthz` of http_api_server.go.
use Prim.Native.Char.{Char}
use Prim.Native.String
use namespace_lister.Base.Int.{ℤ, pos}
use namespace_lister.Base.{
  Outcome, ℕ, String, true, not, Option, none, some, List, [], ok, panic, failed_type_assertion,
  ◌>>=◌, if◌then◌else◌, ◌==◌, string_eq,
}
use namespace_lister.Http.{
  Writer, Handler, header_get, write_header, add_header, set_header, write, log_entry,
}
use namespace_lister.Lister.{
  NamespaceList, NamespaceLister, status_error, plain_error, Reply, success, failure,
}

-- What the handlers call and do not implement: the bytes of a text, `json.Marshal` with its error, the
-- error of a write to the client, and the new correlation id of `uuid.NewUUID`.
pub record Encoding : Type 0 where
  pub bytes : String → List ℕ
  pub marshal : NamespaceList → List ℕ × Option String
  pub write_error : Option String
  pub new_uuid : String

-- the line feed that `fmt.Fprintln` adds
abbrev pub newline : String
newline = String.◌∷◌ (Char.char 10 tt) String.[]

module _ (enc : Encoding) where
  -- `http.Error`
  unfoldable pub http_error : String → ℤ → Writer → Outcome Writer
  unfolding write_header write set_header
  http_error message code w =
      let w₁ = set_header "Content-Type" "text/plain; charset=utf-8" w in
      let w₂ = set_header "X-Content-Type-Options" "nosniff" w₁ in
      write_header code w₂ >>= λ w₃. ok (write (enc.bytes (String.◌++◌ message newline)) w₃)

  -- `write`: a write to the client that fails has sent the status, and is logged.
  unfoldable pub write_data : List ℕ → Writer → Outcome Writer
  unfolding write write_header log_entry
  write_data b w = elim enc.write_error [
    | some err ↦ write_header (pos 500) (log_entry "error writing reply" (write [] w))
    | none ↦ ok (write b w)
  ]

  -- the part of `ServeHTTP` behind the lister's answer
  unfoldable pub write_reply : Reply → Writer → Outcome Writer
  unfolding http_error add_header write_data
  write_reply (failure (status_error code message)) w = http_error message code w
  write_reply (failure (plain_error message)) w = http_error message (pos 500) w
  write_reply (success nn) w =
      let (b, err) = enc.marshal nn in
      elim err [
        | some message ↦ http_error message (pos 500) w
        | none ↦ write_data b (add_header "Content-Type" "application/json;charset=utf-8" w)
      ]

  -- `ServeHTTP`: the user's details in the context are asserted to be there.
  unfoldable pub list_namespaces_handler : NamespaceLister → Handler
  unfolding write_reply
  list_namespaces_handler lister ctx r w = elim ctx.user_details [
    | none ↦ panic failed_type_assertion
    | some ud ↦ do reply ← lister ud.name ud.groups; write_reply reply w
  ]

  -- `AddLogCorrelationIDMiddleware`
  unfoldable pub add_log_correlation_id_middleware : Handler → Handler
  unfolding header_get
  add_log_correlation_id_middleware next ctx r w =
      let given = header_get r "X-Correlation-ID" in
      let cid = (if not (given == "") then given else enc.new_uuid) in
      next (record ctx { correlation_id = some cid }) r w

-- `AddLogRequestMiddleware`
unfoldable pub add_log_request_middleware : Handler → Handler
unfolding log_entry
add_log_request_middleware next ctx r w = do
  w' ← next ctx r w
  ok (log_entry "request processed" w')

-- `AddInjectLoggerMiddleware`
unfoldable pub add_inject_logger_middleware : Handler → Handler
add_inject_logger_middleware next ctx r w = next (record ctx { has_logger = true }) r w

-- `healthz`
unfoldable pub healthz : Handler
unfolding write_header
healthz ctx r w = write_header (pos 200) w
