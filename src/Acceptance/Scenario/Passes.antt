-- ===== src/Acceptance/Scenario/Passes.antt =====
-- The scenario in which a user is given access to namespaces and retrieves these only.
use namespace_lister.Base.{
  ℕ, String, true, ◌≡◌, sym, ap, ◌∙◌, Option, none, some, List, [], ◌∷◌, ◌++◌, map, IsNodup,
  string_eq, Slice, elements, ok, Iteration, subst,
}
use namespace_lister.Kube.{Namespace, Subject, subject_eq, core_version}
use namespace_lister.Lister.{success, group_subject, parse_username, new_subject_namespace_lister}
use namespace_lister.Lister.Access.{name_of, ListsAccess}
use namespace_lister.Policies.{Objects, NewSubjectAccessEvaluator, allowed_subjects_of, IsEvaluator}
use namespace_lister.Policies.Cached.{Selectors, IsCacheOf, cached_namespaces}
use namespace_lister.Retriever.{Reader}
use namespace_lister.Synch.{Environment, World, synch}
use namespace_lister.Synch.Content.{IsUninterrupted}
use namespace_lister.Transform.{TransformFunc}
use namespace_lister.Transform.Laws.{StripsManagedFields}
use namespace_lister.Acceptance.{Context, namespaces_of, run_id}
use namespace_lister.Acceptance.Checks.{run_items, retrieves_only_accessible}
use namespace_lister.Acceptance.Checks.Service.{retrieves_only_accessible-may_get}
use namespace_lister.Acceptance.Grants.{with_created, HasNamespaceGet}
use namespace_lister.Acceptance.Steps.{
  Cluster, Created, test_namespace, subject_has_access_to_n_namespaces,
}
use namespace_lister.Acceptance.Steps.Prepared.{
  Prepares, subject_has_access_to_n_namespaces-Prepares,
}
use namespace_lister.Acceptance.Scenario.{ListsAccess-with_grants}

-- A step that has not failed.
Prepares-none :
    {Builder TlsConfig : Type 0} (subject : Subject) (number : ℕ) (ctx : Context Builder TlsConfig)
    (made : List Created) (r : Context Builder TlsConfig × List Created × Option String)
    → r.2 ≡ none
    → Prepares subject number ctx made r
    → Prepares subject number ctx made (r.0, r.1, none)
Prepares-none subject number ctx made (ctx', made', none) h p = p
Prepares-none subject number ctx made (ctx', made', some e) h p = absurd (cc h)

module _ (sel : Selectors) (strip : TransformFunc) (strips : StripsManagedFields strip)
    (namespace_selector : sel.Selector) {E : Type 0} (new : NewSubjectAccessEvaluator E)
    (evaluates : IsEvaluator new) (o : Objects) (has : HasNamespaceGet o) (cluster : Cluster)
    {Builder TlsConfig : Type 0} (ctx : Context Builder TlsConfig)
    (empty : elements (namespaces_of ctx) ≡ []) (fresh : run_items (run_id ctx) o.namespaces ≡ [])
    (all : (name : String)
      → sel.matches namespace_selector (test_namespace (run_id ctx) name).meta.labels ≡ true)
    (user : Subject) (number : ℕ) where
  -- what the step returns, with the objects it has created
  abbrev pub step : Context Builder TlsConfig × List Created × Option String
  step = subject_has_access_to_n_namespaces cluster user number ctx []

  -- The scenario of the acceptance tests passes: given a user with access to some namespaces, the
  -- user retrieves only the namespaces they have access to. If the step that gives the user access
  -- to any number of namespaces does not fail, then after a run of `synch` that nothing interrupts
  -- the lister answers the user, with any groups, and the check of the suite passes on this answer,
  -- whatever else the cluster grants to the user or the groups. The conditions: the cluster role of
  -- the tests has a rule that lists getting every namespace, the context has no namespaces before
  -- and the cluster none of the run, the selector of namespaces selects those of the tests; the
  -- resource cache holds what its options keep of the cluster with what the step has created, its
  -- stored namespaces differ in their names, the evaluator does what the documentation of RBAC
  -- says, and label selectors and the function that strips managed fields do what their
  -- documentation says; and the username can be parsed.
  pub retrieves_only_accessible-subject_has_access_to_n_namespaces :
      (reader : Reader E) (env : Environment) (it : Iteration) (w : World) (username : String)
      (groups : List String)
      → step.2 ≡ none
      → IsCacheOf sel strip namespace_selector (with_created o step.1) reader
      → env.allowed_subjects ≡ allowed_subjects_of new reader
      → env.list_error ≡ none
      → IsUninterrupted env
      → w.cache.id_func ≡ name_of
      → w.stored ≡ cached_namespaces sel strip namespace_selector (with_created o step.1).namespaces
      → IsNodup (map name_of w.stored)
      → parse_username username ≡ ok user
      → (r : Slice Namespace) × (new_subject_namespace_lister it
            (synch env w).0.cache
            username
            groups
          ≡ ok (success (record { kind = "NamespaceList"; api_version = core_version; items = r })))
        × (retrieves_only_accessible (run_id step.0) (namespaces_of step.0) r none ≡ true)
  retrieves_only_accessible-subject_has_access_to_n_namespaces reader env it w username groups done
        cached allowed fine live named kept distinct parsed =
      let (nn, listed, many, once, nameless, tests, stays, marked, built) =
        Prepares-none user number ctx [] step done
          (subject_has_access_to_n_namespaces-Prepares cluster user number ctx []) in
      let enn = namespaces_of step.0 in
      let expected : elements enn ≡ nn = listed ∙ ap (λ l. l ++ nn) empty in
      let (r, answered, (to, from)) =
        retrieves_only_accessible-may_get (run_id ctx) env it w username groups user enn fine live
          named distinct parsed (subst (λ l. IsNodup (map name_of l)) (sym expected) once) in
      let access =
        ListsAccess-with_grants sel strip strips namespace_selector new evaluates o has reader
          (run_id ctx) fresh all user (map group_subject groups) nn step.1 built nameless tests
          cached env allowed enn expected in
      (
        r,
        answered,
        ap (λ run. retrieves_only_accessible run enn r none) stays
            ∙ from (
                subst
                  (λ l.
                    ListsAccess env (run_items (run_id ctx) l) (user ∷ map group_subject groups)
                      enn)
                  (sym kept) access),
      )
