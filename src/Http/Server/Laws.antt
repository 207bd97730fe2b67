-- ===== src/Http/Server/Laws.antt =====
-- What the API server of http_api_server.go answers to a request for the namespaces.
use Prim.Native.String
use namespace_lister.Base.Int.{ℤ, pos, negsuc}
use namespace_lister.Base.{
  ◌≤◌, ◌<◌, String, invalid_status_code, ◌∙◌, ℕ, ◌≡◌, refl, true, false, Option, none, some, List,
  [], ◌∷◌, Outcome, ok, panic, ◌>>=◌, arith, string_eq, ◌⊎◌, inl, inr, ◌≢◌, Option-cases,
}
use namespace_lister.Http.{
  Request, User, Context, Writer, Handler, no_reply, write_header, write, add_header, set_header,
  log_entry,
}
use namespace_lister.Http.Authn.{AuthRequest, add_authn_middleware}
use namespace_lister.Http.Handlers.{
  Encoding, newline, write_reply, write_data, http_error, list_namespaces_handler,
  add_log_correlation_id_middleware, add_log_request_middleware, add_inject_logger_middleware,
}
use namespace_lister.Http.Server.{
  Instruments, serve_mux, is_get, api_server, get_namespaces, add_metrics_middleware,
}
use namespace_lister.Lister.{
  NamespaceList, NamespaceLister, Reply, success, failure, status_error, plain_error,
}

-- Instrumenting a handler does not change its answer, as promhttp documents.
abbrev pub KeepsAnswers : (Handler → Handler) → Type 0
KeepsAnswers instrument =
    (h : Handler) (ctx : Context) (r : Request) (w : Writer) → instrument h ctx r w ≡ h ctx r w

abbrev pub IsTransparent : Option Instruments → Type 0
IsTransparent none = Unit
IsTransparent (some m) =
    KeepsAnswers m.duration
    × KeepsAnswers m.counter
    × KeepsAnswers m.response_size
    × KeepsAnswers m.in_flight

-- A request for the namespaces.
abbrev pub AsksNamespaces : Request → Type 0
AsksNamespaces r = (r.path ≡ "/api/v1/namespaces") × (is_get r.method ≡ true)

add_metrics_lem :
    (reg : Option Instruments) (h : Handler) (ctx : Context) (r : Request) (w : Writer)
    → IsTransparent reg
    → add_metrics_middleware reg h ctx r w ≡ h ctx r w
unfolding add_metrics_middleware
add_metrics_lem none h ctx r w t = refl
add_metrics_lem (some m) h ctx r w (duration, counter, size, in_flight) =
    duration _ ctx r w ∙ counter _ ctx r w ∙ size _ ctx r w ∙ in_flight h ctx r w

after_reply :
    (m : Outcome Reply) (f : Reply → Outcome Writer) (g : Writer → Outcome Writer)
    → (m >>= f >>= g) ≡ (m >>= (λ reply. f reply >>= g))
after_reply (ok reply) f g = refl
after_reply (panic fault) f g = refl

-- What is made of a code: it is the status of the answer, or comes before an answer with the status
-- 200, or there is no such code and the handler panics.
abbrev pub Reports : ℤ → Outcome Writer → Type 0
Reports code o =
    ((n : ℕ) × (w : Writer) × (code ≡ pos n)
      × ((n ≡ 101) ⊎ (200 ≤ n))
      × (n ≤ 999)
      × (o ≡ ok w)
      × (w.status ≡ some n))
    ⊎ (((n : ℕ) × (w : Writer) × (code ≡ pos n)
          × (100 ≤ n)
          × (n ≤ 199)
          × (n ≢ 101)
          × (o ≡ ok w)
          × (w.status ≡ some 200))
        ⊎ ((((n : ℕ) × (code ≡ negsuc n)) ⊎ ((n : ℕ) × (code ≡ pos n) × ((n < 100) ⊎ (999 < n))))
            × (o ≡ panic invalid_status_code)))

Code-cases :
    (n : ℕ)
    → (((n ≡ 101) ⊎ (200 ≤ n)) × (n ≤ 999))
      ⊎ (((100 ≤ n) × (n ≤ 199) × (n ≢ 101)) ⊎ ((n < 100) ⊎ (999 < n)))
Code-cases n = ground arith

module _ (enc : Encoding) (reg : Option Instruments) (transparent : IsTransparent reg)
    (ctx : Context) (r : Request) (asks : AsksNamespaces r) where
  -- Routing and instrumentation lead to the authentication, with the context prepared.
  routed :
      (ar : AuthRequest) (lister : NamespaceLister) (w : Writer)
      → api_server enc reg ar lister ctx r w
        ≡ add_inject_logger_middleware
            (add_log_correlation_id_middleware enc (
              add_authn_middleware ar
                (add_log_request_middleware (list_namespaces_handler enc lister))))
            ctx
            r
            w
  unfolding api_server serve_mux get_namespaces
  routed ar lister w = ground (
    arith,
    add_metrics_lem reg
        (add_inject_logger_middleware (
          add_log_correlation_id_middleware enc (
            add_authn_middleware ar
              (add_log_request_middleware (list_namespaces_handler enc lister)))))
        ctx r w transparent,
  )

  -- A request for the namespaces that the authenticator rejects, or cannot decide, is answered by status 401 with no
  -- body, whatever the lister would say.
  pub api_server_unauthenticated :
      (ar : AuthRequest) (lister : NamespaceLister)
      → ((ar r).error ≢ none) ⊎ ((ar r).authenticated ≡ false)
      → (w : Writer) × (api_server enc reg ar lister ctx r no_reply ≡ ok w)
        × (w.status ≡ some 401)
        × (w.body ≡ [])
        × (w.headers ≡ [])
  unfolding add_inject_logger_middleware add_log_correlation_id_middleware add_authn_middleware
      write_header log_entry
  api_server_unauthenticated ar lister h = elim (Option-cases (ar r).error) [
    | inr (err, e) ↦ (
      log_entry "error authenticating request" (record no_reply { status = some 401 }),
      rw (routed ar lister no_reply) (rw (e, add_authn_middleware)),
      refl,
      refl,
      refl,
    )
    | inl e ↦
        let denied : (ar r).authenticated ≡ false = ground arith in
        (
          record no_reply { status = some 401 },
          rw (routed ar lister no_reply) (rw (e, denied, add_authn_middleware)),
          refl,
          refl,
          refl,
        )
  ]

  -- An authenticated request is answered from what the lister says for the user of the
  -- authentication, whatever the context held before.
  pub api_server_authenticated :
      (ar : AuthRequest) (lister : NamespaceLister) (u : User)
      → (ar r).error ≡ none
      → (ar r).authenticated ≡ true
      → (ar r).response ≡ some u
      → api_server enc reg ar lister ctx r no_reply ≡ (
          lister u.name u.groups >>= λ reply.
          write_reply enc reply no_reply >>= λ w. ok (log_entry "request processed" w))
  unfolding add_inject_logger_middleware add_log_correlation_id_middleware add_authn_middleware
      add_log_request_middleware list_namespaces_handler
  api_server_authenticated ar lister u e a p =
      rw (routed ar lister no_reply)
        (rw (e, a, p, add_authn_middleware) (after_reply (lister u.name u.groups) _ _))

  pub write_reply_success :
      (nn : NamespaceList) (b : List ℕ)
      → enc.marshal nn ≡ (b, none)
      → enc.write_error ≡ none
      → write_reply enc (success nn) no_reply
        ≡ ok (write b (add_header "Content-Type" "application/json;charset=utf-8" no_reply))
  unfolding write_reply write_data
  write_reply_success nn b coded sent = ground (arith, coded, sent)

  -- Where the request is authenticated, and the lister's list can be marshalled and sent, the answer to
  -- a request for the namespaces has status 200, the content type of JSON and the marshalled list as its body.
  pub api_server_success :
      (ar : AuthRequest) (lister : NamespaceLister) (u : User) (nn : NamespaceList) (b : List ℕ)
      → (ar r).error ≡ none
      → (ar r).authenticated ≡ true
      → (ar r).response ≡ some u
      → lister u.name u.groups ≡ ok (success nn)
      → enc.marshal nn ≡ (b, none)
      → enc.write_error ≡ none
      → (w : Writer) × (api_server enc reg ar lister ctx r no_reply ≡ ok w)
        × (w.status ≡ some 200)
        × (w.body ≡ b)
        × (w.headers ≡ ("Content-Type", "application/json;charset=utf-8") ∷ [])
  unfolding write_reply write_data write add_header log_entry
  api_server_success ar lister u nn b e a p listed coded sent = (
    log_entry "request processed"
        (write b (add_header "Content-Type" "application/json;charset=utf-8" no_reply)),
    rw (api_server_authenticated ar lister u e a p, listed, write_reply_success nn b coded sent),
    ground arith,
    ground arith,
    ground arith,
  )

  -- The code that a failure is reported with: the error's own code, 500 for an error without one and
  -- for a list that cannot be marshalled.
  abbrev pub failure_code : Reply → Option ℤ
  failure_code (failure (status_error code message)) = some code
  failure_code (failure (plain_error message)) = some (pos 500)
  failure_code (success nn) = elim (enc.marshal nn).1 [
    | none ↦ none
    | some message ↦ some (pos 500)
  ]

  write_reply_failure :
      (reply : Reply) (code : ℤ)
      → failure_code reply ≡ some code
      → (message : String) × (write_reply enc reply no_reply ≡ http_error enc message code no_reply)
  unfolding write_reply
  write_reply_failure (failure (status_error c message)) code h = (message, cc)
  write_reply_failure (failure (plain_error message)) code h = (message, cc)
  write_reply_failure (success nn) code h = elim (Option-cases (enc.marshal nn).1) [
    | inl e ↦ absurd (ground arith)
    | inr (message, e) ↦ (message, ground arith)
  ]

  http_error-Reports :
      (message : String) (code : ℤ)
      → Reports code
          (http_error enc message code no_reply >>= λ w. ok (log_entry "request processed" w))
  unfolding http_error write_header write set_header log_entry
  http_error-Reports message (negsuc n) = inr (inr (inl (n, refl), refl))
  http_error-Reports message (pos n) =
      let w : Writer =
        set_header "X-Content-Type-Options" "nosniff"
          (set_header "Content-Type" "text/plain; charset=utf-8" no_reply) in
      let finish : Writer → Writer =
        λ w'. log_entry "request processed" (write (enc.bytes (String.◌++◌ message newline)) w') in
      elim (Code-cases n) [
        | inl (kind, small) ↦
            inl (n, finish (record w { status = some n }), refl, kind, small, ground arith, refl)
        | inr (inl (low, high, other)) ↦
            inr (inl (n, finish w, refl, low, high, other, ground arith, refl))
        | inr (inr bad) ↦ inr (inr (inr (n, refl, bad), ground arith))
      ]

  -- An authenticated request for which the lister reports a failure, or for which its list cannot be
  -- marshalled, is answered with the code of the lister's error if it has one, and with 500 otherwise,
  -- as `WriteHeader` takes codes: a code from 200 to 999, or 101, is the status of the answer; any
  -- other from 100 to 199 is followed by an answer with the status 200; and for a code that is negative,
  -- below 100 or above 999 the handler panics.
  pub api_server_failure :
      (ar : AuthRequest) (lister : NamespaceLister) (u : User) (reply : Reply) (code : ℤ)
      → (ar r).error ≡ none
      → (ar r).authenticated ≡ true
      → (ar r).response ≡ some u
      → lister u.name u.groups ≡ ok reply
      → failure_code reply ≡ some code
      → Reports code (api_server enc reg ar lister ctx r no_reply)
  api_server_failure ar lister u reply code e a p said failed =
      let (message, made) = write_reply_failure reply code failed in
      rw (api_server_authenticated ar lister u e a p, said, made) (http_error-Reports message code)
