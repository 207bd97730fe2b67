-- ===== src/Policies/Evaluated.antt =====
-- The subjects that `synch` is told of are those that the objects of the cluster grant access to.
use namespace_lister.Base.{
  false, true, not, String, Bool, ◌&&◌, ◌||◌, ◌≡◌, refl, ap, ◌∙◌, Option, none, some, List, [], ◌∷◌,
  any, contains, ◌==◌, string_eq, arith,
}
use namespace_lister.Kube.{Namespace, Subject, subject_eq, RoleRef, RoleBinding}
use namespace_lister.Policies.{
  Objects, has_label, find_role, named, named_in, rules_found, role_allows, granted, system_masters,
  NewSubjectAccessEvaluator, allowed_subjects_of, applies, or_no_bindings, rules_of_ref, binds,
  IsEvaluator,
}
use namespace_lister.CacheOptions.{
  namespace_use_for_access_label_key, namespace_use_for_access_label_value_true,
}
use namespace_lister.Policies.Cached.{Selectors, IsCacheOf, rules_answered, bindings_answered}
use namespace_lister.Policies.Trimmed.{
  applies-filter_rules, cached_roles_lem, cached_cluster_roles_lem, any-cached_role_bindings,
  any-cached_cluster_role_bindings,
}
use namespace_lister.Retriever.{
  Reader, unless_error, copies, get_role, get_cluster_role, list_role_bindings,
  list_cluster_role_bindings, new_cr_auth_retriever,
}
use namespace_lister.Synch.{attributes_of}
use namespace_lister.Transform.{Role, TransformFunc, filter_namespaces_related_policy_rules}
use namespace_lister.Transform.Laws.{StripsManagedFields}

pub any-cong :
    {A : Type 0} {f g : A → Bool} (xs : List A) → ((x : A) → f x ≡ g x) → any f xs ≡ any g xs
any-cong [] h = refl
any-cong (x ∷ xs) h = ground (arith, h x, any-cong xs h)

unless-cong : (c : Bool) {x y : Bool} → ((c ≡ false) → x ≡ y) → (not c && x) ≡ (not c && y)
unless-cong true h = refl
unless-cong false h = h refl

rules_found-unless_error :
    {E : Type 0} (x : Role × Option E) → rules_found (unless_error x).0 ≡ rules_answered x
rules_found-unless_error (r, none) = refl
rules_found-unless_error (r, some e) = refl

copies_lem : (bb : List RoleBinding) → copies bb ≡ bb
unfolding copies
copies_lem [] = refl
copies_lem (b ∷ bb) = ap (λ l. b ∷ l) (copies_lem bb)

or_no_bindings-unless_error :
    {E : Type 0} (x : List RoleBinding × Option E)
    → or_no_bindings (unless_error (copies x.0, x.1)).0 ≡ bindings_answered x
or_no_bindings-unless_error (bb, none) = copies_lem bb
or_no_bindings-unless_error (bb, some e) = refl

module _ (sel : Selectors) (strip : TransformFunc) (strips : StripsManagedFields strip)
    (namespace_selector : sel.Selector) {E : Type 0} (o : Objects) (cli : Reader E)
    (cached : IsCacheOf sel strip namespace_selector o cli) (ns : Namespace) where
  -- What the rules of a reference apply to, by the cache and by the cluster.
  rules_of_ref-role_allows :
      (binding_namespace : String) (ref : RoleRef)
      → any
          (applies (attributes_of ns))
          (rules_of_ref (new_cr_auth_retriever cli) binding_namespace ref)
        ≡ role_allows o binding_namespace ref ns.meta.name
  unfolding role_allows new_cr_auth_retriever get_role get_cluster_role
  rules_of_ref-role_allows binding_namespace ref =
      let found = find_role (named_in binding_namespace ref.name) o.roles in
      let cluster_found = find_role (named ref.name) o.cluster_roles in
      let e : rules_found (unless_error (cli.get_role binding_namespace ref.name)).0
          ≡ filter_namespaces_related_policy_rules (rules_found found) =
        rules_found-unless_error (cli.get_role binding_namespace ref.name)
        ∙ cached.roles_found binding_namespace ref.name
        ∙ cached_roles_lem sel strip strips namespace_selector found in
      let f : rules_found (unless_error (cli.get_cluster_role ref.name)).0
          ≡ filter_namespaces_related_policy_rules (rules_found cluster_found) =
        rules_found-unless_error (cli.get_cluster_role ref.name)
        ∙ cached.cluster_roles_found ref.name
        ∙ cached_cluster_roles_lem sel strip strips namespace_selector cluster_found in
      ground (
        arith,
        e,
        f,
        applies-filter_rules ns (rules_found found),
        applies-filter_rules ns (rules_found cluster_found),
      )

  cluster_role_bindings-grant :
      (s : Subject)
      → any
          (binds (new_cr_auth_retriever cli) "" (attributes_of ns) s)
          (or_no_bindings (new_cr_auth_retriever cli).list_cluster_role_bindings.0)
        ≡ any
            (λ b.
              has_label namespace_use_for_access_label_key namespace_use_for_access_label_value_true
                b.meta.labels
              && contains b.subjects s
              && role_allows o "" b.role_ref ns.meta.name)
            o.cluster_role_bindings
  unfolding new_cr_auth_retriever list_cluster_role_bindings
  cluster_role_bindings-grant s =
      let p = binds (new_cr_auth_retriever cli) "" (attributes_of ns) s in
      ap (any p) (or_no_bindings-unless_error cli.list_cluster_role_bindings)
      ∙ cached.cluster_bindings_listed p
      ∙ any-cached_cluster_role_bindings sel strip strips namespace_selector p
          o.cluster_role_bindings
      ∙ any-cong o.cluster_role_bindings
          (λ b. ground (arith, rules_of_ref-role_allows "" b.role_ref))

  role_bindings-grant :
      (s : Subject)
      → (ns.meta.name == "") ≡ false
      → any
          (binds (new_cr_auth_retriever cli) ns.meta.name (attributes_of ns) s)
          (or_no_bindings ((new_cr_auth_retriever cli).list_role_bindings ns.meta.name).0)
        ≡ any
            (λ b.
              b.meta.namespace == ns.meta.name
              && contains b.subjects s
              && role_allows o ns.meta.name b.role_ref ns.meta.name)
            o.role_bindings
  unfolding new_cr_auth_retriever list_role_bindings
  role_bindings-grant s named =
      let name = ns.meta.name in
      let p = binds (new_cr_auth_retriever cli) name (attributes_of ns) s in
      ap (any p) (or_no_bindings-unless_error (cli.list_role_bindings name))
      ∙ cached.bindings_listed name p
      ∙ any-cached_role_bindings sel strip strips namespace_selector _ o.role_bindings
      ∙ any-cong o.role_bindings
          (λ b. ground (arith, named, rules_of_ref-role_allows name b.role_ref))

  -- The evaluator of the program, on the resource cache of the program, gives for a namespace
  -- exactly the subjects that the cluster's own objects grant to get it, and the group of the
  -- masters, which is allowed everything: trimming and filtering what the resource cache keeps
  -- loses no grant and adds none. A grant is by a role binding in the namespace, or by a cluster
  -- role binding with the label for it, to a role with a rule that lists the verb, the group and
  -- the resource. The conditions: the reader answers from a cache that holds what the options keep
  -- of these objects, the evaluator of k8s.io/kubernetes allows what the documentation of RBAC
  -- says, and label selectors and the function that strips managed fields do what their
  -- documentation says.
  pub allowed_subjects_of-granted :
      (new : NewSubjectAccessEvaluator E)
      → IsEvaluator new
      → (s : Subject)
      → contains (allowed_subjects_of new cli (attributes_of ns)).0 s
        ≡ (system_masters == s || granted o ns.meta.name s)
  unfolding allowed_subjects_of granted attributes_of
  allowed_subjects_of-granted new evaluates s =
      let a = attributes_of ns in
      evaluates cli a s refl
      ∙ ground (
        arith,
        cluster_role_bindings-grant s,
        unless-cong (ns.meta.name == "") (role_bindings-grant s),
      )
