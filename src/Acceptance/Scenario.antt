-- ===== src/Acceptance/Scenario.antt =====
-- A scenario of the acceptance tests from end to end: the step that gives the user access to namespaces,
-- a run of `synch` over the cluster as it is then, and the check that the user retrieves these only.
pub mod Passes
use namespace_lister.Base.{
  ℕ, String, String_dec, Bool, true, false, ◌&&◌, ◌||◌, ◌≡◌, refl, sym, ap, ◌∙◌, eq_refl, Option,
  none, some, List, [], ◌∷◌, ◌++◌, map, any, All, IsNodup, contains, ◌==◌, string_eq, arith, Slice,
  elements, ok, Iteration, subst,
}
use namespace_lister.Base.Dict.{lookup}
use namespace_lister.CacheOptions.{build_cache_options, by_object_transformers}
use namespace_lister.Kube.{Namespace, Subject, subject_eq, core_version}
use namespace_lister.Labels.{map_or_new}
use namespace_lister.Lister.{success, group_subject, parse_username, new_subject_namespace_lister}
use namespace_lister.Lister.Access.{name_of, may_get, ListsAccess}
use namespace_lister.Policies.{
  Objects, granted, system_masters, NewSubjectAccessEvaluator, allowed_subjects_of, IsEvaluator,
}
use namespace_lister.Policies.Cached.{Selectors, IsCacheOf, cached_namespaces}
use namespace_lister.Policies.Evaluated.{any-cong, allowed_subjects_of-granted}
use namespace_lister.Retriever.{Reader}
use namespace_lister.Synch.{Environment, World, synch, attributes_of}
use namespace_lister.Synch.Content.{IsUninterrupted}
use namespace_lister.Transform.{TransformFunc, namespace, trim_namespace}
use namespace_lister.Transform.Laws.{StripsManagedFields}
use namespace_lister.Acceptance.{Context, namespaces_of, run_id}
use namespace_lister.Acceptance.Checks.{or_empty_text, run_items, retrieves_only_accessible}
use namespace_lister.Acceptance.Checks.Service.{any_and, retrieves_only_accessible-may_get}
use namespace_lister.Acceptance.Grants.{any-append, with_created, HasNamespaceGet, namespaces_made}
use namespace_lister.Acceptance.Grants.Given.{granted-with_grants}
use namespace_lister.Acceptance.Steps.{
  Cluster, Created, test_namespace, subject_has_access_to_n_namespaces,
}
use namespace_lister.Acceptance.Steps.Prepared.{
  test_run, with_grants, Prepares, subject_has_access_to_n_namespaces-Prepares,
}

namespaces_made-with_grants :
    (subject : Subject) (new : List Namespace) → namespaces_made (with_grants subject new) ≡ new
namespaces_made-with_grants subject [] = refl
namespaces_made-with_grants subject (ns ∷ new) =
    ap (λ l. ns ∷ l) (namespaces_made-with_grants subject new)

-- One who may see what is there sees it, whoever else looks.
absorbed : (m g u h t : Bool) {q : Bool} → q ≡ (m || (g || u && h)) → u ≡ true → h ≡ ((q || t) && h)
absorbed m g u h t e f = ground (arith, e, f)

-- A test of the name counts where the name is.
any-at :
    (a : String) (q : String → Bool) (nn : List Namespace)
    → any (λ n. n.meta.name == a && q n.meta.name) nn ≡ (q a && contains (map name_of nn) a)
unfolding contains
any-at a q [] = ground arith
any-at a q (n ∷ nn) = elim (string_eq.dec n.meta.name a) [
  | yes same ↦ ground (arith, ap q same, any-at a q nn)
  | no other ↦ ground (arith, any-at a q nn)
]

module _ (run : String) where
  abbrev carries : Namespace → Bool
  carries n = or_empty_text (lookup "namespace-lister/test-run" (map_or_new n.meta.labels)) == run

  none-run_items :
      (q : Namespace → Bool) (nn : List Namespace)
      → run_items run nn ≡ []
      → any (λ n. carries n && q n) nn ≡ false
  unfolding run_items
  none-run_items q [] h = refl
  none-run_items q (n ∷ nn) h = ground (arith, none-run_items q nn)

  module _ (sel : Selectors) (strip : TransformFunc) (strips : StripsManagedFields strip)
      (namespace_selector : sel.Selector) where
    abbrev selected : Namespace → Bool
    selected n = sel.matches namespace_selector n.meta.labels

    any-run_items-cached :
        (p : String → Bool) (nn : List Namespace)
        → any
            (λ n. p n.meta.name)
            (run_items run (cached_namespaces sel strip namespace_selector nn))
          ≡ any (λ n. carries n && (selected n && p n.meta.name)) nn
    unfolding build_cache_options by_object_transformers trim_namespace run_items
    any-run_items-cached p [] = refl
    any-run_items-cached p (n ∷ nn) =
        rw (strips (namespace n)) (ground (arith, any-run_items-cached p nn))

    any-tests :
        ((name : String) → selected (test_namespace run name) ≡ true)
        → (subject : Subject) (p : String → Bool) (new : List Namespace)
        → All (λ ns. ns ≡ test_namespace run ns.meta.name) new
        → any (λ n. carries n && (selected n && p n.meta.name)) new ≡ any (λ n. p n.meta.name) new
    any-tests all subject p [] h = refl
    any-tests all subject p (n ∷ new) (same, h) =
        let label : carries n ≡ true =
          ap carries same ∙ rw (test_run run subject n.meta.name) (eq_refl run) in
        let chosen : selected n ≡ true = ap selected same ∙ all n.meta.name in
        ground (arith, label, chosen, any-tests all subject p new h)

module _ (sel : Selectors) (strip : TransformFunc) (strips : StripsManagedFields strip)
    (namespace_selector : sel.Selector) {E : Type 0} (new : NewSubjectAccessEvaluator E)
    (evaluates : IsEvaluator new) (o : Objects) (has : HasNamespaceGet o) (reader : Reader E)
    (run : String) (fresh : run_items run o.namespaces ≡ [])
    (all : (name : String)
      → sel.matches namespace_selector (test_namespace run name).meta.labels ≡ true) where
  -- The namespaces of the step, and of the run those only, are what the user and the groups may get.
  pub ListsAccess-with_grants :
      (user : Subject) (groups : List Subject) (nn : List Namespace) (made : List Created)
      → made ≡ with_grants user nn
      → contains (map name_of nn) "" ≡ false
      → All (λ ns. ns ≡ test_namespace run ns.meta.name) nn
      → IsCacheOf sel strip namespace_selector (with_created o made) reader
      → (env : Environment) → env.allowed_subjects ≡ allowed_subjects_of new reader
      → (enn : Slice Namespace) → elements enn ≡ nn
      → ListsAccess env
          (run_items run
            (cached_namespaces sel strip namespace_selector (with_created o made).namespaces))
          (user ∷ groups)
          enn
  ListsAccess-with_grants user groups nn made built named tests cached env allowed enn listed a =
      let q : Subject → String → Bool =
        λ s n. system_masters == s || granted (with_created o made) n s in
      let stored =
        cached_namespaces sel strip namespace_selector (with_created o made).namespaces in
      let held = contains (map name_of nn) a in
      let inner : (s : Subject)
          → any (λ ns. ns.meta.name == a && may_get env s ns) (run_items run stored)
            ≡ (q s a && held) =
        λ s.
          let p : String → Bool = λ n. n == a && q s n in
          any-cong (run_items run stored) (λ ns.
            ap (λ b. ns.meta.name == a && b)
              (ap (λ f. contains (f (attributes_of ns)).0 s) allowed
                ∙ allowed_subjects_of-granted sel strip strips namespace_selector
                    (with_created o made) reader cached ns new evaluates s))
          ∙ any-run_items-cached run sel strip strips namespace_selector p
              (with_created o made).namespaces
          ∙ any-append _ o.namespaces (namespaces_made made)
          ∙ rw
              (none-run_items run
                (λ n. sel.matches namespace_selector n.meta.labels && p n.meta.name) o.namespaces
                fresh)
              refl
          ∙ ap
              (any (λ n.
                carries run n && (sel.matches namespace_selector n.meta.labels && p n.meta.name)))
              (ap namespaces_made built ∙ namespaces_made-with_grants user nn)
          ∙ any-tests run sel strip strips namespace_selector all user p nn tests
          ∙ any-at a (q s) nn in
      let mine : q user a ≡ (
          system_masters == user || (granted (with_created o []) a user || user == user && held)) =
        ap (λ b. system_masters == user || b)
          (ap (λ l. granted (with_created o l) a user) built
            ∙ granted-with_grants o has user [] nn named a user) in
      ap (λ l. contains (map name_of l) a) listed
      ∙ absorbed (system_masters == user) (granted (with_created o []) a user) (user == user) held
          (any (λ s. q s a) groups) mine (eq_refl user)
      ∙ sym (any_and (λ s. q s a) _ held inner (user ∷ groups))
