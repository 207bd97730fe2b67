-- ===== src/Tests/History.antt =====
-- Witnesses: the program comes up over a small cluster, and what it lists was granted there.
use namespace_lister.Base.{
  contains, map, elements, ok, in_order, String_dec, string_eq, nat_eq, true, List, [], ◌≡◌, refl,
}
use namespace_lister.AccessCache.{list_keys, list, restock}
use namespace_lister.Base.Dict.{lookup, insert}
use namespace_lister.Base.Sort.{compact_func, sort_func}
use namespace_lister.CacheOptions.{build_cache_options, by_object_transformers}
use namespace_lister.Kube.{Subject, subject_eq, core_version}
use namespace_lister.Labels.{
  with_virtual_labels_and_annotations_for_access, set_visibility_virtual_label,
}
use namespace_lister.Lister.{
  NamespaceList, success, list_namespaces, subjects, new_subject_namespace_lister,
}
use namespace_lister.Lister.Access.{name_of}
use namespace_lister.Policies.{allowed_subjects_of, find_role}
use namespace_lister.Policies.History.{
  IsFromCluster, History, WasSelected, WasGranted, Reach-WasGranted,
}
use namespace_lister.Program.{synching, up, Reach, here, next, background, calls, synched}
use namespace_lister.Program.Serving.Moments.{AtEachStep-Held}
use namespace_lister.Retriever.{
  new_cr_auth_retriever, get_role, get_cluster_role, list_role_bindings, list_cluster_role_bindings,
  copies,
}
use namespace_lister.Scheduler.{start}
use namespace_lister.Subjects.{remove_duplicate_subjects}
use namespace_lister.Synch.{slice_at, store_access, subjects_for, attributes_of, AccessData}
use namespace_lister.System.{
  Machine, initial, outside, listing, begin, list_done, round, restocked, after_round,
}
use namespace_lister.System.Runs.{Relabelled-refl}
use namespace_lister.Tests.{alice, beta}
use namespace_lister.Tests.Rbac.{
  label_selectors, team_label, reader_of, reader_of-IsCacheOf, rbac_evaluator,
  rbac_evaluator-IsEvaluator,
}
use namespace_lister.Tests.Granting.{small_cluster, beta_alone}
use namespace_lister.Tests.Policies.{strip_managed_fields}
use namespace_lister.Tests.Running.{inside, after, starting, ending}

abbrev entered : Machine
entered = record (initial beta_alone) { sched = inside; phase = listing }

abbrev one_round : AccessData
one_round = after_round beta_alone beta []

abbrev ready : Machine
ready = record entered {
  sched = after;
  phase = outside;
  cache = restock one_round entered.cache;
  completed = true;
}

ready-Reach : Reach beta_alone (record { machine = ready; phase = up })
unfolding start nat_eq native.Mathlib.Decide.ℕ_discrete
ready-Reach =
    let w = Relabelled-refl beta_alone.stored in
    let h₁ = next here (calls (begin starting) refl refl) in
    let h₂ = next h₁ (background synching (list_done refl) refl) in
    let h₃ = next h₂ (background synching (round beta [] [] refl w) refl) in
    next h₃ (synched (restocked one_round refl ending) refl refl refl)

beta_alone-IsFromCluster :
    IsFromCluster label_selectors strip_managed_fields team_label rbac_evaluator beta_alone
unfolding build_cache_options by_object_transformers String_dec string_eq lookup
beta_alone-IsFromCluster = record {
  cluster = small_cluster;
  reader = reader_of team_label small_cluster;
  cached = reader_of-IsCacheOf team_label small_cluster;
  allowed = refl;
  lists = λ p. refl;
}

ready-History : History label_selectors strip_managed_fields team_label rbac_evaluator ready-Reach
unfolding ready-Reach
ready-History past was =
    let b = beta_alone-IsFromCluster in
    AtEachStep-Held (IsFromCluster label_selectors strip_managed_fields team_label rbac_evaluator)
      ready-Reach past was ((((b, b), b), b), b)

-- What alice is answered.
abbrev for_alice : NamespaceList
for_alice = record {
  kind = "NamespaceList";
  api_version = core_version;
  items = slice_at alice one_round;
}

answered_alice :
    new_subject_namespace_lister in_order ready.cache "alice" [] ≡ ok (success for_alice)
unfolding new_subject_namespace_lister list_namespaces subjects list_keys list slice_at restock
answered_alice = refl

lists_beta : contains (map name_of (elements for_alice.items)) "beta" ≡ true
unfolding contains slice_at after_round store_access subjects_for remove_duplicate_subjects
    subject_eq string_eq String_dec lookup insert compact_func sort_func
    with_virtual_labels_and_annotations_for_access set_visibility_virtual_label allowed_subjects_of
    new_cr_auth_retriever get_role get_cluster_role list_role_bindings list_cluster_role_bindings
    copies find_role attributes_of build_cache_options by_object_transformers
lists_beta = refl

Reach-WasGranted_example :
    (subs : List Subject) × (s : Subject) × (subjects "alice" [] ≡ ok subs)
    × (contains subs s ≡ true)
    × WasSelected label_selectors strip_managed_fields team_label rbac_evaluator ready-Reach
        ready-History "beta"
    × WasGranted label_selectors strip_managed_fields team_label rbac_evaluator ready-Reach
        ready-History s "beta"
Reach-WasGranted_example =
    Reach-WasGranted label_selectors strip_managed_fields team_label rbac_evaluator ready-Reach
      ready-History (λ i. refl) rbac_evaluator-IsEvaluator refl in_order "alice" [] for_alice "beta"
      answered_alice lists_beta
