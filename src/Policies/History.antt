-- ===== src/Policies/History.antt =====
-- What the lister lists, while the cluster changes, against the objects of the cluster over time.
use namespace_lister.Base.{
  String, true, ◌&&◌, ◌||◌, ◌≡◌, refl, sym, ap, ◌∙◌, List, [], ◌∷◌, map, any, contains, ◌==◌,
  string_eq, ok, Iteration, elements, arith, subst,
}
use namespace_lister.Kube.{Namespace, Subject, subject_eq}
use namespace_lister.Lister.{NamespaceList, success, subjects, new_subject_namespace_lister}
use namespace_lister.Lister.Access.{name_of, may_get}
use namespace_lister.Policies.{
  Objects, granted, system_masters, NewSubjectAccessEvaluator, allowed_subjects_of, IsEvaluator,
}
use namespace_lister.Policies.Cached.{Selectors, IsCacheOf, ListsNamespaces}
use namespace_lister.Policies.Evaluated.{allowed_subjects_of-granted}
use namespace_lister.Policies.Served.{any-cached_namespaces}
use namespace_lister.Program.{up, Program, Reach}
use namespace_lister.Program.Granted.{Reach-WasAllowed}
use namespace_lister.Program.Serving.{Reach-Reaches}
use namespace_lister.Retriever.{Reader}
use namespace_lister.Synch.{attributes_of}
use namespace_lister.System.{Resources, environment}
use namespace_lister.System.Granted.{Held}
use namespace_lister.Transform.{TransformFunc}
use namespace_lister.Transform.Laws.{StripsManagedFields}

contains-any : (a : String) (xs : List String) → contains xs a ≡ any (λ x. x == a) xs
unfolding contains
contains-any a [] = refl
contains-any a (x ∷ xs) = ground (arith, contains-any a xs)

module _ (sel : Selectors) (strip : TransformFunc) (namespace_selector : sel.Selector) {E : Type 0}
    (new : NewSubjectAccessEvaluator E) where
  -- The resources of a moment are what the resource cache keeps of some objects.
  pub record IsFromCluster (now : Resources) : Type 0 where
    pub cluster : Objects
    pub reader : Reader E
    pub cached : IsCacheOf sel strip namespace_selector cluster reader
    pub allowed : now.allowed_subjects ≡ allowed_subjects_of new reader
    pub lists : ListsNamespaces sel strip namespace_selector cluster now.stored

  -- The objects of the cluster at each moment of a run.
  abbrev pub History : {r : Resources} {p : Program} → Reach r p → Type 0
  History h = (past : Resources) → Held _ (Reach-Reaches h) past → IsFromCluster past

  module _ {r : Resources} {p : Program} (h : Reach r p) (history : History h) where
    -- The selector selected a namespace of this name at some time.
    abbrev pub WasSelected : String → Type 0
    WasSelected a =
        (past : Resources) × (held : Held _ (Reach-Reaches h) past) × (any
            (λ n. sel.matches namespace_selector n.meta.labels && n.meta.name == a)
            (history past held).cluster.namespaces
          ≡ true)

    -- The objects of the cluster granted it to the subject at some time.
    abbrev pub WasGranted : Subject → String → Type 0
    WasGranted s a =
        (past : Resources) × (held : Held _ (Reach-Reaches h) past) × ((system_masters == s
            || granted (history past held).cluster a s)
          ≡ true)

    module _ (strips : StripsManagedFields strip) (evaluates : IsEvaluator new) where
      selected :
          (past : Resources) (from : IsFromCluster past) (a : String)
          → contains (map name_of past.stored) a
            ≡ any
                (λ n. sel.matches namespace_selector n.meta.labels && n.meta.name == a)
                from.cluster.namespaces
      selected past from a =
          contains-any a (map name_of past.stored)
          ∙ from.lists (λ n. n == a)
          ∙ any-cached_namespaces sel strip strips namespace_selector from.cluster (λ n. n == a)
              from.cluster.namespaces

      allowed-granted :
          (past : Resources) (from : IsFromCluster past) (s : Subject) (ns : Namespace)
          → may_get (environment past) s ns
            ≡ (system_masters == s || granted from.cluster ns.meta.name s)
      allowed-granted past from s ns =
          ap (λ f. contains (f (attributes_of ns)).0 s) from.allowed
          ∙ allowed_subjects_of-granted sel strip strips namespace_selector from.cluster from.reader
              from.cached ns new evaluates s

      -- Nobody is listed what the objects of the cluster never granted. In every state that can be
      -- reached once the program has come up, whatever the goroutines do, however the cluster
      -- changes, and however many runs of `synch` failed or raced with changes: whenever the lister
      -- answers a username and groups with a list, and a name is on it, the selector of namespaces
      -- selected a namespace of that name at some time since the start, and at some time since the
      -- start the objects of the cluster granted it to one of the subjects that the username and
      -- the groups stand for, or that subject is the group of the masters. The conditions: at each
      -- moment the resource cache holds what its options keep of some objects of the cluster, the
      -- evaluator does what the documentation of RBAC says, and label selectors and the function
      -- that strips managed fields do what their documentation says.
      pub Reach-WasGranted :
          p.phase ≡ up
          → (it : Iteration) (username : String) (groups : List String) (answer : NamespaceList)
            (a : String)
          → new_subject_namespace_lister it p.machine.cache username groups ≡ ok (success answer)
          → contains (map name_of (elements answer.items)) a ≡ true
          → (subs : List Subject) × (s : Subject) × (subjects username groups ≡ ok subs)
            × (contains subs s ≡ true)
            × WasSelected a
            × WasGranted s a
      Reach-WasGranted e it username groups answer a answered listed =
          let (subs, s, stands, among, (p₁, held₁, stored), (p₂, held₂, (ns, same, may))) =
            Reach-WasAllowed h e it username groups answer a answered listed in
          let from = history p₂ held₂ in
          (
            subs,
            s,
            stands,
            among,
            (p₁, held₁, sym (selected p₁ (history p₁ held₁) a) ∙ stored),
            (
              p₂,
              held₂,
              subst (λ n. (system_masters == s || granted from.cluster n s) ≡ true) same
                  (sym (allowed-granted p₂ from s ns) ∙ may),
            ),
          )
