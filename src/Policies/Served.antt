-- ===== src/Policies/Served.antt =====
-- From the objects of the cluster to the answers of the API server.
use namespace_lister.Base.{
  ℕ, String, Bool, true, false, ◌&&◌, ◌||◌, ◌≡◌, ◌≢◌, refl, sym, ap, ◌∙◌, Option, none, some, List,
  [], ◌∷◌, map, any, contains, ◌==◌, string_eq, arith, Slice, elements, ok, Iteration,
}
use namespace_lister.CacheOptions.{build_cache_options, by_object_transformers}
use namespace_lister.Http.{Request, Context, Writer, no_reply, header_get}
use namespace_lister.Http.Authn.{Authenticator, authenticate_request}
use namespace_lister.Http.Handlers.{Encoding}
use namespace_lister.Http.Server.{Instruments, api_server}
use namespace_lister.Http.Server.Laws.{IsTransparent, AsksNamespaces}
use namespace_lister.Kube.{Namespace, Subject, subject_eq}
use namespace_lister.Lister.{
  NamespaceList, group_subject, parse_username, new_subject_namespace_lister,
}
use namespace_lister.Lister.Access.{name_of, ListsAccess}
use namespace_lister.Policies.{
  Objects, granted, system_masters, NewSubjectAccessEvaluator, allowed_subjects_of, IsEvaluator,
}
use namespace_lister.Policies.Cached.{Selectors, IsCacheOf, ListsNamespaces, cached_namespaces}
use namespace_lister.Policies.Evaluated.{allowed_subjects_of-granted, any-cong}
use namespace_lister.Retriever.{Reader}
use namespace_lister.Scheduler.{running, idle}
use namespace_lister.Service.{api_server-up_to_date}
use namespace_lister.Synch.{Environment, attributes_of}
use namespace_lister.System.{Resources, environment, Machine, Reaches}
use namespace_lister.Transform.{namespace, TransformFunc, trim_namespace}
use namespace_lister.Transform.Laws.{StripsManagedFields}

any-map :
    {A B : Type 0} (p : B → Bool) (f : A → B) (xs : List A)
    → any p (map f xs) ≡ any (λ x. p (f x)) xs
any-map p f [] = refl
any-map p f (x ∷ xs) = ap (λ b. p (f x) || b) (any-map p f xs)

module _ (sel : Selectors) (namespace_selector : sel.Selector) (o : Objects) where
  -- The namespaces listed are by name those that the selector of namespaces selects and that the
  -- objects of the cluster grant to one of the subjects; the masters are granted all.
  abbrev pub ListsGranted : List Subject → Slice Namespace → Type 0
  ListsGranted subs r =
      (a : String)
      → contains (map name_of (elements r)) a
        ≡ any
            (λ s.
              any
                (λ n.
                  sel.matches namespace_selector n.meta.labels
                  && (n.meta.name == a && (system_masters == s || granted o n.meta.name s)))
                o.namespaces)
            subs

module _ (sel : Selectors) (strip : TransformFunc) (strips : StripsManagedFields strip)
    (namespace_selector : sel.Selector) (o : Objects) where
  pub any-cached_namespaces :
      (p : String → Bool) (nn : List Namespace)
      → any p (map name_of (cached_namespaces sel strip namespace_selector nn))
        ≡ any (λ n. sel.matches namespace_selector n.meta.labels && p n.meta.name) nn
  unfolding build_cache_options by_object_transformers trim_namespace
  any-cached_namespaces p [] = refl
  any-cached_namespaces p (n ∷ nn) =
      rw (strips (namespace n)) (ground (arith, any-cached_namespaces p nn))

  module _ {E : Type 0} (cli : Reader E) (cached : IsCacheOf sel strip namespace_selector o cli)
      (new : NewSubjectAccessEvaluator E) (evaluates : IsEvaluator new) where
    pub ListsAccess-ListsGranted :
        (env : Environment) (stored : List Namespace) (subs : List Subject) (r : Slice Namespace)
        → env.allowed_subjects ≡ allowed_subjects_of new cli
        → ListsNamespaces sel strip namespace_selector o stored
        → ListsAccess env stored subs r
        → ListsGranted sel namespace_selector o subs r
    ListsAccess-ListsGranted env stored subs r allowed lists h a =
        h a
        ∙ any-cong subs (λ s.
          let p : String → Bool = λ n. n == a && (system_masters == s || granted o n s) in
          any-cong stored (λ ns.
            ap (λ b. ns.meta.name == a && b)
              (ap (λ f. contains (f (attributes_of ns)).0 s) allowed
                ∙ allowed_subjects_of-granted sel strip strips namespace_selector o cli cached ns
                    new evaluates s))
          ∙ sym (any-map p name_of stored)
          ∙ lists p
          ∙ any-cached_namespaces p o.namespaces)

    module _ (enc : Encoding) (reg : Option Instruments) (transparent : IsTransparent reg)
        (coded : (nn : NamespaceList) → (enc.marshal nn).1 ≡ none) (sent : enc.write_error ≡ none)
        (a : Authenticator) (ctx : Context) (r : Request) (asks : AsksNamespaces r)
        (header : a.username_header ≢ "") (given : header_get r a.username_header ≢ "") where
      -- Once the program is quiet, a user is served what the bindings of the cluster grant. In
      -- every state that the goroutines can reach while the resource cache changes, with no event
      -- on its way, no request made since the last start of a run, nobody inside `synch` and the
      -- last run completed, a request that names a user in the configured header is answered with
      -- status 200 and a marshalled list. It names exactly the namespaces that the selector of
      -- namespaces selects and that the user or one of the groups in the request is granted to get:
      -- by a role binding in the namespace, or by a cluster role binding with the label for it,
      -- whose role has a rule that lists the verb, the group and the resource; or every selected
      -- namespace, for the group of the masters. The conditions: the resource cache of the moment
      -- holds what its options keep of the objects of the cluster, its namespaces are those that
      -- `synch` lists, the locator of `synch` is made from a reader of it and an evaluator that
      -- does what the documentation of RBAC says; label selectors and the function that strips
      -- managed fields do what their documentation says; the list can be marshalled and sent, the
      -- username can be parsed, and instrumenting a handler does not change its answer.
      pub api_server-granted :
          (it : Iteration) (r₀ : Resources) (m : Machine) (user : Subject)
          → Reaches r₀ m
          → m.undelivered ≡ 0
          → m.sched.pending ≡ false
          → m.sched.worker ≢ running
          → ((i : ℕ) → m.sched.callers i ≡ idle)
          → m.completed ≡ true
          → m.resources.allowed_subjects ≡ allowed_subjects_of new cli
          → ListsNamespaces sel strip namespace_selector o m.resources.stored
          → parse_username (header_get r a.username_header) ≡ ok user
          → (nn : NamespaceList) × (reply : Writer) × (api_server enc reg
                (authenticate_request a)
                (new_subject_namespace_lister it m.cache)
                ctx
                r
                no_reply
              ≡ ok reply)
            × (reply.status ≡ some 200)
            × (reply.body ≡ (enc.marshal nn).0)
            × ListsGranted sel namespace_selector o
                (user ∷ map group_subject (r.headers a.groups_header))
                nn.items
      api_server-granted it r₀ m user reached late asked free quiet completed allowed lists parsed =
          let (nn, reply, answered, status, body, exact) =
            api_server-up_to_date enc reg transparent coded sent a ctx r asks header given it r₀ m
              user reached late asked free quiet completed parsed in
          (
            nn,
            reply,
            answered,
            status,
            body,
            ListsAccess-ListsGranted (environment m.resources) m.resources.stored
                (user ∷ map group_subject (r.headers a.groups_header)) nn.items allowed lists exact,
          )
