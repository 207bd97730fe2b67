-- ===== src/Tests/Rbac.antt =====
-- Data: selectors of labels, a cache of objects that is in step with a cluster, and an evaluator that does
-- what the documentation of RBAC says.
use namespace_lister.Base.{
  ◌||◌, String, Bool, true, ◌&&◌, ◌≡◌, refl, ◌∙◌, Option, none, List, [], ◌∷◌, ◌++◌, any, filter,
  contains, contains-append, if◌then◌else◌, ◌==◌, string_eq, arith,
}
use namespace_lister.Kube.{StringMap, Subject, subject_eq, RoleBinding}
use namespace_lister.Policies.{
  Objects, has_label, find_role, named, named_in, system_masters, NewSubjectAccessEvaluator,
  applies, or_no_bindings, rules_of_ref, IsEvaluator,
}
use namespace_lister.Policies.Cached.{Selectors, cached_rules, cached_bindings, IsCacheOf}
use namespace_lister.Retriever.{Reader, RoleSource, new_cr_auth_retriever}
use namespace_lister.Startup.{roles, cluster_roles, role_bindings, cluster_role_bindings}
use namespace_lister.Transform.{role, cluster_role, role_binding, cluster_role_binding}
use namespace_lister.Tests.Policies.{viewer, strip_managed_fields}

-- A selector that lists labels with their values.
abbrev pub has_all : StringMap → Option StringMap → Bool
has_all [] labels = true
has_all ((key, value) ∷ m) labels = has_label key value labels && has_all m labels

pub from_set-has_all :
    (key value : String) (labels : Option StringMap)
    → has_all ((key, value) ∷ []) labels ≡ has_label key value labels
from_set-has_all key value labels = ground arith

abbrev pub label_selectors : Selectors
label_selectors = record {
  Selector = StringMap;
  matches = has_all;
  from_set = λ m. m;
  from_set-matches = from_set-has_all;
}

any-filter :
    {A : Type 0} (p q : A → Bool) (xs : List A) → any p (filter q xs) ≡ any (λ x. q x && p x) xs
any-filter p q [] = refl
any-filter p q (x ∷ xs) = ground (arith, any-filter p q xs)

abbrev pub team_label : StringMap
team_label = ("team", "b") ∷ []

-- A reader that answers as a cache in step with the cluster does.
abbrev pub reader_of : StringMap → Objects → Reader String
reader_of selector o = record {
  get_role = λ ns name. (
    record viewer {
      rules =
          cached_rules label_selectors strip_managed_fields selector roles role
            (find_role (named_in ns name) o.roles);
    },
    none,
  );
  get_cluster_role = λ name. (
    record viewer {
      rules =
          cached_rules label_selectors strip_managed_fields selector cluster_roles cluster_role
            (find_role (named name) o.cluster_roles);
    },
    none,
  );
  list_role_bindings = λ ns. (
    filter (λ b. (ns == "" || b.meta.namespace == ns))
        (cached_bindings label_selectors strip_managed_fields selector role_bindings role_binding
          o.role_bindings),
    none,
  );
  list_cluster_role_bindings = (
    cached_bindings label_selectors strip_managed_fields selector cluster_role_bindings
        cluster_role_binding o.cluster_role_bindings,
    none,
  );
}

pub reader_of-IsCacheOf :
    (selector : StringMap) (o : Objects)
    → IsCacheOf label_selectors strip_managed_fields selector o (reader_of selector o)
reader_of-IsCacheOf selector o = record {
  roles_found = λ ns name. refl;
  cluster_roles_found = λ name. refl;
  bindings_listed = λ ns p.
      any-filter p (λ b. (ns == "" || b.meta.namespace == ns))
        (cached_bindings label_selectors strip_managed_fields selector role_bindings role_binding
          o.role_bindings);
  cluster_bindings_listed = λ p. refl;
}

-- The subjects of the bindings with a property.
abbrev pub subjects_where : (RoleBinding → Bool) → List RoleBinding → List Subject
subjects_where p [] = []
subjects_where p (b ∷ bb) = (if p b then b.subjects else []) ++ subjects_where p bb

contains-subjects_where :
    (p : RoleBinding → Bool) (bb : List RoleBinding) (s : Subject)
    → contains (subjects_where p bb) s ≡ any (λ b. contains b.subjects s && p b) bb
unfolding contains
contains-subjects_where p [] s = refl
contains-subjects_where p (b ∷ bb) s =
    contains-append (if p b then b.subjects else []) (subjects_where p bb) s
    ∙ ground (arith, contains-subjects_where p bb s)

-- The evaluator that the documentation of RBAC describes.
abbrev pub rbac_evaluator : NewSubjectAccessEvaluator String
rbac_evaluator rr bb cc_roles cc_bindings super_user a =
    let source : RoleSource String = record {
      get_role = rr.get_role;
      list_role_bindings = bb.list_role_bindings;
      get_cluster_role = cc_roles.get_cluster_role;
      list_cluster_role_bindings = cc_bindings.list_cluster_role_bindings;
    } in
    let grants = λ (space : String) (b : RoleBinding).
      any (applies a) (rules_of_ref source space b.role_ref) in
    (
      system_masters
          ∷ (subjects_where (grants "") (or_no_bindings source.list_cluster_role_bindings.0)
              ++ (if a.namespace == ""
                  then []
                  else subjects_where (grants a.namespace)
                      (or_no_bindings (source.list_role_bindings a.namespace).0))),
      none,
    )

pub rbac_evaluator-IsEvaluator : IsEvaluator rbac_evaluator
unfolding contains
rbac_evaluator-IsEvaluator cli a s h =
    let source : RoleSource String = new_cr_auth_retriever cli in
    let grants = λ (space : String) (b : RoleBinding).
      any (applies a) (rules_of_ref source space b.role_ref) in
    let cluster = or_no_bindings source.list_cluster_role_bindings.0 in
    let local = or_no_bindings (source.list_role_bindings a.namespace).0 in
    ground (
      arith,
      contains-append (subjects_where (grants "") cluster)
          (if a.namespace == "" then [] else subjects_where (grants a.namespace) local) s,
      contains-subjects_where (grants "") cluster s,
      contains-subjects_where (grants a.namespace) local s,
    )
