-- ===== src/Tests/Scenario.antt =====
-- Witnesses: the scenario in which a user is given access to two namespaces.
use namespace_lister.Base.{
  String_dec, string_eq, nat_eq, true, List, [], ◌≡◌, refl, none, Slice, map, IsNodup, contains, ok,
  in_order,
}
use namespace_lister.Base.Decimal.{itoa, digits_onto, replace_all}
use namespace_lister.Base.Dict.{lookup}
use namespace_lister.CacheOptions.{build_cache_options, by_object_transformers}
use namespace_lister.Kube.{Namespace, core_version}
use namespace_lister.Lister.{success, parse_username, new_subject_namespace_lister}
use namespace_lister.Lister.Access.{name_of}
use namespace_lister.Policies.{Objects, allowed_subjects_of}
use namespace_lister.Policies.Cached.{cached_namespaces}
use namespace_lister.Synch.{Environment, World, synch}
use namespace_lister.Acceptance.{namespaces_of, with_namespaces, run_id, value}
use namespace_lister.Acceptance.Checks.{run_items, retrieves_only_accessible}
use namespace_lister.Acceptance.Grants.{with_created}
use namespace_lister.Acceptance.Scenario.Passes.{
  retrieves_only_accessible-subject_has_access_to_n_namespaces,
}
use namespace_lister.Acceptance.Steps.{
  Created, create, create_granted, granted_name, test_namespace, subject_has_access_to_n_namespaces,
}
use namespace_lister.Tests.{quiet, empty_cache, alice}
use namespace_lister.Tests.Given.{prepared_cluster, has_role}
use namespace_lister.Tests.Policies.{strip_managed_fields}
use namespace_lister.Tests.Rbac.{
  label_selectors, reader_of, reader_of-IsCacheOf, rbac_evaluator, rbac_evaluator-IsEvaluator,
}
use namespace_lister.Tests.Suite.{willing, in_run}

abbrev created : List Created
created = (subject_has_access_to_n_namespaces willing alice 2 in_run []).1

-- The cluster after the step, what `synch` meets then, and the access cache before it.
abbrev granted_cluster : Objects
granted_cluster = with_created prepared_cluster created

abbrev then_locator : Environment
then_locator = record quiet {
  allowed_subjects = allowed_subjects_of rbac_evaluator (reader_of [] granted_cluster);
}

abbrev then_stored : World
then_stored = record {
  stored = cached_namespaces label_selectors strip_managed_fields [] granted_cluster.namespaces;
  cache = empty_cache;
}

different_names : IsNodup (map name_of then_stored.stored)
unfolding build_cache_options by_object_transformers subject_has_access_to_n_namespaces
    create_granted create namespaces_of with_namespaces run_id value test_namespace granted_name
    replace_all itoa digits_onto String_dec string_eq contains nat_eq
    native.Mathlib.Decide.ℕ_discrete
different_names = (refl, (refl, (refl, tt)))

retrieves_only_accessible-subject_has_access_to_n_namespaces_example :
    (r : Slice Namespace) × (new_subject_namespace_lister in_order
        (synch then_locator then_stored).0.cache
        "alice"
        []
      ≡ ok (success (record { kind = "NamespaceList"; api_version = core_version; items = r })))
    × (retrieves_only_accessible
          (run_id (subject_has_access_to_n_namespaces willing alice 2 in_run []).0)
          (namespaces_of (subject_has_access_to_n_namespaces willing alice 2 in_run []).0)
          r
          none
        ≡ true)
unfolding subject_has_access_to_n_namespaces create_granted create namespaces_of run_id value
    run_items lookup parse_username String_dec string_eq
retrieves_only_accessible-subject_has_access_to_n_namespaces_example =
    retrieves_only_accessible-subject_has_access_to_n_namespaces label_selectors
      strip_managed_fields (λ i. refl) [] rbac_evaluator rbac_evaluator-IsEvaluator prepared_cluster
      has_role willing in_run refl refl (λ name. refl) alice 2 (reader_of [] granted_cluster)
      then_locator in_order then_stored "alice" [] refl (reader_of-IsCacheOf [] granted_cluster)
      refl refl (λ i. refl) refl refl different_names refl
