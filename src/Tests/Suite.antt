-- ===== src/Tests/Suite.antt =====
-- Witnesses: the acceptance tests, the reads of metrics and the options of the resource cache.
use namespace_lister.Base.{
  ℕ, nat_eq, String, true, none, some, List, [], ◌∷◌, ◌≡◌, refl, contains, map, in_order, ◌↔◌,
  String_dec, string_eq, Slice, elements,
}
use namespace_lister.Kube.{core_version, Namespace, StringMap}
use namespace_lister.Base.Decimal.{itoa, digits_onto, replace_all}
use namespace_lister.Acceptance.{Context, a_text, value, with_namespaces, namespaces_of, run_id}
use namespace_lister.Acceptance.Steps.{
  Cluster, create, create_granted, test_namespace, granted_name, subject_has_access_to_n_namespaces,
}
use namespace_lister.Acceptance.Checks.{run_items, retrieves_only_accessible}
use namespace_lister.Acceptance.Checks.Service.{retrieves_only_accessible-may_get}
use namespace_lister.Lister.{success, group_subject, parse_username, new_subject_namespace_lister}
use namespace_lister.Lister.Access.{ListsAccess}
use namespace_lister.Synch.{World, synch}
use namespace_lister.Base.Slices
use namespace_lister.Tests.{quiet, empty_cache}
use namespace_lister.MetricsUtil.{Prometheus, Sample, ok}
use namespace_lister.Startup.{roles}
use namespace_lister.Transform.{Object, role, ok}
use namespace_lister.CacheOptions.{build_cache_options}
use namespace_lister.CacheOptions.Laws.{Fits, a_role, transform-Fits}
use namespace_lister.Tests.{alice, namespace_of}
use namespace_lister.Tests.Policies.{strip_managed_fields, viewer}

abbrev of_run : String → String → Namespace
of_run name run = namespace_of name (some (("namespace-lister/test-run", run) ∷ []))

abbrev expected : Slice Namespace
expected = some (of_run "a" "run-1" ∷ of_run "b" "run-1" ∷ [])

abbrev of_runs : World
of_runs = record {
  stored = of_run "b" "run-1" ∷ of_run "c" "run-0" ∷ of_run "a" "run-1" ∷ [];
  cache = empty_cache;
}

retrieves_only_accessible-may_get_example :
    (r : Slice Namespace) × (new_subject_namespace_lister in_order
        (synch quiet of_runs).0.cache
        "alice"
        ("dev" ∷ [])
      ≡ Slices.ok
          (success (record { kind = "NamespaceList"; api_version = core_version; items = r })))
    × ((retrieves_only_accessible "run-1" expected r none ≡ true)
        ↔ ListsAccess quiet
            (run_items "run-1" of_runs.stored)
            (alice ∷ map group_subject ("dev" ∷ []))
            expected)
unfolding parse_username contains String_dec string_eq
retrieves_only_accessible-may_get_example =
    retrieves_only_accessible-may_get "run-1" quiet in_order of_runs "alice" ("dev" ∷ []) alice
      expected refl (λ i. refl) refl (refl, (refl, (refl, tt))) refl (refl, (refl, tt))

abbrev sample : String → String → ℕ → Sample ℕ
sample name status n = record { metric = ("__name__", name) ∷ ("status", status) ∷ []; value = n }

abbrev samples : List (Sample ℕ)
samples =
    sample "duration_sum" "failed" 1
    ∷ sample "duration_sum" "completed" 7
    ∷ sample "duration_count" "completed" 2
    ∷ []

-- A registry with one family.
abbrev registry : Prometheus ℕ ℕ
registry = record { gather = ok (("duration", 0) ∷ []); extract_samples = λ f. ok samples }

abbrev keep_labels : StringMap → StringMap
keep_labels m = m

transform-Fits_example :
    (o : Object) × ((build_cache_options keep_labels strip_managed_fields tt (some [])).by_object
          roles).transform
        (role viewer)
      ≡ ok o
    × Fits keep_labels strip_managed_fields (λ i. refl) tt (some []) roles (role viewer) o
transform-Fits_example =
    transform-Fits keep_labels strip_managed_fields (λ i. refl) tt (some []) roles (role viewer)
      (a_role viewer)

-- A cluster that refuses nothing.
abbrev pub willing : Cluster
willing = record {
  build_error = none;
  create_error = λ made o. none;
  get_cluster_role = λ name. (name, none);
}

abbrev pub in_run : Context ℕ ℕ
in_run = ("run-id", a_text "7") ∷ []

-- The context of the example has the two names that the format gives.
two_granted :
    map
      (λ ns. ns.meta.name)
      (elements (namespaces_of (subject_has_access_to_n_namespaces willing alice 2 in_run []).0))
    ≡ "run-7-alice-0" ∷ "run-7-alice-1" ∷ []
unfolding subject_has_access_to_n_namespaces create_granted create namespaces_of with_namespaces
    run_id value test_namespace granted_name replace_all itoa digits_onto String_dec string_eq
    nat_eq native.Mathlib.Decide.ℕ_discrete
two_granted = refl
