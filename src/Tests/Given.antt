-- ===== src/Tests/Given.antt =====
-- Witnesses: what the steps that give access grant in a small cluster.
use namespace_lister.Base.{
  contains, ℕ, String, String_dec, string_eq, ◌||◌, ◌==◌, ◌⊎◌, ◌≡◌, refl, none, [], ◌∷◌,
}
use namespace_lister.Kube.{Subject, subject_eq}
use namespace_lister.Policies.{Objects, find_role, granted}
use namespace_lister.UserInfo.{as_subject}
use namespace_lister.Acceptance.{Context, user, with_user}
use namespace_lister.UserInfo.{user_info_from_username}
use namespace_lister.Acceptance.Steps.{
  subject_has_access_to_n_namespaces, has_labeled_cluster_scoped_permission,
  has_cluster_scoped_permission,
}
use namespace_lister.Acceptance.Grants.{HasNamespaceGet, with_created}
use namespace_lister.Acceptance.Grants.Given.{
  Grants, subject_has_access_to_n_namespaces-Grants, cluster_scoped_permission-granted,
}
use namespace_lister.Tests.{meta_of, alice, alpha}
use namespace_lister.Tests.Policies.{mixed, viewer}
use namespace_lister.Tests.Suite.{willing, in_run}

-- A cluster with the cluster role of the tests.
abbrev pub prepared_cluster : Objects
prepared_cluster = record {
  namespaces = alpha ∷ [];
  roles = [];
  cluster_roles =
      record viewer {
        meta = meta_of "namespace-get" none;
        rules = record mixed { resource_names = [] } ∷ [];
      }
      ∷ [];
  role_bindings = [];
  cluster_role_bindings = [];
}

pub has_role : HasNamespaceGet prepared_cluster
unfolding find_role contains String_dec string_eq
has_role name = refl

subject_has_access_to_n_namespaces-Grants_example :
    Grants prepared_cluster alice 2 in_run []
      (subject_has_access_to_n_namespaces willing alice 2 in_run [])
subject_has_access_to_n_namespaces-Grants_example =
    subject_has_access_to_n_namespaces-Grants prepared_cluster has_role willing alice 2 in_run []

abbrev of_bob : Context ℕ ℕ
of_bob = with_user (user_info_from_username "bob") in_run

cluster_scoped_permission-granted_example :
    let plain = (has_cluster_scoped_permission willing of_bob []).1 in
    let labelled = (has_labeled_cluster_scoped_permission willing of_bob []).1 in
    ((name : String) (s : Subject)
      → granted (with_created prepared_cluster plain) name s
        ≡ granted (with_created prepared_cluster []) name s)
    × ((labelled ≡ [])
        ⊎ ((name : String) (s : Subject)
            → granted (with_created prepared_cluster labelled) name s ≡ (
                granted (with_created prepared_cluster []) name s
                || as_subject (user of_bob) == s)))
cluster_scoped_permission-granted_example =
    cluster_scoped_permission-granted prepared_cluster willing of_bob [] has_role refl
