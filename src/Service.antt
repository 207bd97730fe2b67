-- ===== src/Service.antt =====
-- The whole service: a request with the username in a header, through the API server of
-- http_api_server.go and the lister of namespacelister_subject.go, to the data of `synch`.
use namespace_lister.Base.{
  ℕ, true, false, ◌≡◌, ◌≢◌, ap, none, some, ◌∷◌, Option, map, string_eq, ok, Iteration,
}
use namespace_lister.Kube.{Subject, subject_eq}
use namespace_lister.Synch.{Environment, World, synch}
use namespace_lister.Synch.Content.{IsUninterrupted}
use namespace_lister.Lister.{
  NamespaceLister, success, NamespaceList, group_subject, parse_username,
  new_subject_namespace_lister,
}
use namespace_lister.Lister.Access.{
  name_of, ListsAccess, list_namespaces-may_get, list_namespaces-ListsAccess,
}
use namespace_lister.Scheduler.{running, idle}
use namespace_lister.System.{Resources, environment, Machine, Reaches}
use namespace_lister.System.Courses.{is_unaided, Only, Only-Moves, Only-Keeps}
use namespace_lister.System.CatchUp.{Reaches-CatchesUp, Reaches-Moves}
use namespace_lister.System.Fresh.{Reaches-IsFresh, Reaches-id_func}
use namespace_lister.Http.{User, Request, Context, Writer, no_reply, header_get}
use namespace_lister.Http.Authn.{Authenticator, authenticate_request}
use namespace_lister.Http.Authn.Laws.{authenticate_request_lem}
use namespace_lister.Http.Handlers.{Encoding}
use namespace_lister.Http.Server.{Instruments, api_server}
use namespace_lister.Http.Server.Laws.{IsTransparent, AsksNamespaces, api_server_success}

module _ (enc : Encoding) (reg : Option Instruments) (transparent : IsTransparent reg)
    (coded : (nn : NamespaceList) → (enc.marshal nn).1 ≡ none) (sent : enc.write_error ≡ none)
    (a : Authenticator) (ctx : Context) (r : Request) (asks : AsksNamespaces r)
    (header : a.username_header ≢ "") (given : header_get r a.username_header ≢ "") where
  -- What a user in the header is answered when the lister lists something.
  pub api_server-header_user :
      (lister : NamespaceLister) (nn : NamespaceList)
      → lister (header_get r a.username_header) (r.headers a.groups_header) ≡ ok (success nn)
      → (reply : Writer) × (api_server enc reg (authenticate_request a) lister ctx r no_reply
          ≡ ok reply)
        × (reply.status ≡ some 200)
        × (reply.body ≡ (enc.marshal nn).0)
  api_server-header_user lister nn listed =
      let known = (authenticate_request_lem a r).0 header given in
      let user : User = record {
        name = header_get r a.username_header;
        groups = r.headers a.groups_header;
      } in
      let (reply, answered, status, body, _) =
        api_server_success enc reg transparent ctx r asks (authenticate_request a) lister user nn
          (enc.marshal nn).0 (ap (λ x. x.error) known) (ap (λ x. x.authenticated) known)
          (ap (λ x. x.response) known) listed (λ i. ((enc.marshal nn).0, coded nn i)) sent in
      (reply, answered, status, body)

  -- After a run of `synch` that nothing interrupts, a request that names a user in the configured
  -- header is answered with status 200 and a marshalled list, which names exactly the namespaces that
  -- the user or one of the groups in the request may get. The conditions: the list can be marshalled
  -- and sent, the username can be parsed, and instrumenting a handler does not change its answer.
  pub api_server-may_get :
      (env : Environment) (it : Iteration) (w : World) (user : Subject)
      → env.list_error ≡ none
      → IsUninterrupted env
      → w.cache.id_func ≡ name_of
      → parse_username (header_get r a.username_header) ≡ ok user
      → (nn : NamespaceList) × (reply : Writer) × (api_server enc reg
            (authenticate_request a)
            (new_subject_namespace_lister it (synch env w).0.cache)
            ctx
            r
            no_reply
          ≡ ok reply)
        × (reply.status ≡ some 200)
        × (reply.body ≡ (enc.marshal nn).0)
        × ListsAccess env w.stored (user ∷ map group_subject (r.headers a.groups_header)) nn.items
  api_server-may_get env it w user fine live named parsed =
      let (items, listed, exact) =
        list_namespaces-may_get env it w (header_get r a.username_header)
          (r.headers a.groups_header) user fine live named parsed in
      let (reply, answered, status, body) =
        api_server-header_user (new_subject_namespace_lister it (synch env w).0.cache) _ listed in
      (_, reply, answered, status, body, exact)

  -- Once the program is quiet its answers are up to date. In every state that the goroutines can reach
  -- while the resource cache changes, with no event on its way, no request made since the last start
  -- of a run, nobody inside `synch` and the last run completed, a request that names a user in the
  -- configured header is answered with status 200 and a marshalled list, which names exactly the
  -- namespaces that the user or one of the groups in the request may get by the resources of the
  -- moment. The conditions: the list can be marshalled and sent, the username can be parsed, and
  -- instrumenting a handler does not change its answer.
  pub api_server-up_to_date :
      (it : Iteration) (r₀ : Resources) (m : Machine) (user : Subject)
      → Reaches r₀ m
      → m.undelivered ≡ 0
      → m.sched.pending ≡ false
      → m.sched.worker ≢ running
      → ((i : ℕ) → m.sched.callers i ≡ idle)
      → m.completed ≡ true
      → parse_username (header_get r a.username_header) ≡ ok user
      → (nn : NamespaceList) × (reply : Writer) × (api_server enc reg
            (authenticate_request a)
            (new_subject_namespace_lister it m.cache)
            ctx
            r
            no_reply
          ≡ ok reply)
        × (reply.status ≡ some 200)
        × (reply.body ≡ (enc.marshal nn).0)
        × ListsAccess
            (environment m.resources)
            m.resources.stored
            (user ∷ map group_subject (r.headers a.groups_header))
            nn.items
  api_server-up_to_date it r₀ m user reached late asked free quiet completed parsed =
      let (c, cached, same) = Reaches-IsFresh reached late asked free quiet completed in
      let (items, listed, exact) =
        list_namespaces-ListsAccess (environment m.resources) it m.cache c m.resources.stored
          (header_get r a.username_header) (r.headers a.groups_header) user cached
          (Reaches-id_func reached) same parsed in
      let (reply, answered, status, body) =
        api_server-header_user (new_subject_namespace_lister it m.cache) _ listed in
      (_, reply, answered, status, body, exact)

  -- The answers can always catch up. From every state that can be reached before the context is
  -- cancelled, whatever run is in progress and whatever requests of `synch` were lost, certain moves
  -- lead to a state in which a request that names a user in the configured header is answered with
  -- status 200 and a marshalled list, which names exactly the namespaces that the user or one of the
  -- groups in the request may get by the resources of the first state. Each of these moves is of a run
  -- of `synch` that does not fail, with at most a change of labels in the stored namespaces, or is the
  -- timer's request, or the worker takes a request or starts its run: no other change of the resources
  -- and no event is among them, and nobody else calls `Synch`. The conditions: the list can be
  -- marshalled and sent, the username can be parsed, and instrumenting a handler does not change its
  -- answer.
  pub api_server-catches_up :
      (it : Iteration) (r₀ : Resources) (m : Machine) (user : Subject)
      → Reaches r₀ m
      → m.sched.cancelled ≡ false
      → parse_username (header_get r a.username_header) ≡ ok user
      → (n : Machine) × Only is_unaided m n
        × (n.resources.allowed_subjects ≡ m.resources.allowed_subjects)
        × (n.undelivered ≡ m.undelivered)
        × ((nn : NamespaceList) × (reply : Writer) × (api_server enc reg
                (authenticate_request a)
                (new_subject_namespace_lister it n.cache)
                ctx
                r
                no_reply
              ≡ ok reply)
            × (reply.status ≡ some 200)
            × (reply.body ≡ (enc.marshal nn).0)
            × ListsAccess
                (environment m.resources)
                m.resources.stored
                (user ∷ map group_subject (r.headers a.groups_header))
                nn.items)
  api_server-catches_up it r₀ m user reached live parsed =
      let (n, moves, (c, cached, same)) = Reaches-CatchesUp reached live in
      let (allowed, late) = Only-Keeps moves in
      let (items, listed, exact) =
        list_namespaces-ListsAccess (environment m.resources) it n.cache c m.resources.stored
          (header_get r a.username_header) (r.headers a.groups_header) user cached
          (Reaches-id_func (Reaches-Moves reached (Only-Moves moves))) same parsed in
      let (reply, answered, status, body) =
        api_server-header_user (new_subject_namespace_lister it n.cache) _ listed in
      (n, moves, allowed, late, (_, reply, answered, status, body, exact))
