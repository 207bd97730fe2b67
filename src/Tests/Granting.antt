-- ===== src/Tests/Granting.antt =====
-- Witnesses: the objects of a small cluster, and whom the program serves then.
use namespace_lister.Base.{
  String, true, false, ◌||◌, ◌≡◌, refl, none, some, [], ◌∷◌, map, contains, ◌==◌, string_eq,
  String_dec, ok, in_order,
}
use namespace_lister.Base.Dict.{lookup}
use namespace_lister.Labels.{set_visibility_virtual_label}
use namespace_lister.CacheOptions.{
  build_cache_options, by_object_transformers, namespace_use_for_access_label_key,
  namespace_use_for_access_label_value_true,
}
use namespace_lister.Kube.{StringMap, Subject, subject_eq, RoleBinding, rbac_group_name}
use namespace_lister.Lister.{
  NamespaceList, group_subject, parse_username, new_subject_namespace_lister,
}
use namespace_lister.Http.{Writer, no_reply, header_get}
use namespace_lister.Http.Authn.{authenticate_request}
use namespace_lister.Http.Server.{api_server}
use namespace_lister.Policies.{Objects, find_role, granted, system_masters, allowed_subjects_of}
use namespace_lister.Policies.Cached.{ListsNamespaces}
use namespace_lister.Policies.Evaluated.{allowed_subjects_of-granted}
use namespace_lister.Policies.Served.{ListsGranted, api_server-granted}
use namespace_lister.Scheduler.{start, leave}
use namespace_lister.Synch.{synch, attributes_of}
use namespace_lister.System.{Resources, environment, outside, Machine, initial, Reaches, here}
use namespace_lister.System.CatchUp.{Reaches-Moves}
use namespace_lister.System.Runs.{world_of, synch-Moves}
use namespace_lister.Transform.{Role}
use namespace_lister.Tests.{meta_of, alice, dev, alpha, beta}
use namespace_lister.Tests.Policies.{mixed, viewer, strip_managed_fields}
use namespace_lister.Tests.Running.{inside, after, starting, ending, callers-after}
use namespace_lister.Tests.Serving.{encoding, some_bytes, by_header, blank, asking}
use namespace_lister.Tests.Rbac.{
  label_selectors, team_label, reader_of, reader_of-IsCacheOf, rbac_evaluator,
  rbac_evaluator-IsEvaluator,
}

-- A role in `beta` that lets get every namespace, a cluster role for `beta` alone, a role binding of
-- the user, a labelled cluster role binding of the group, and one without the label.
abbrev beta_viewer : Role
beta_viewer = record viewer {
  meta = record (meta_of "viewer" none) { namespace = "beta" };
  rules = record mixed { resource_names = [] } ∷ [];
}

abbrev beta_reader : Role
beta_reader = record viewer {
  meta = meta_of "reader" none;
  rules = record mixed { resource_names = "beta" ∷ [] } ∷ [];
}

abbrev binding_to : String → String → Subject → RoleBinding
binding_to kind name s = record {
  meta = meta_of "binding" none;
  role_ref = record { kind = kind; api_group = rbac_group_name; name = name };
  subjects = s ∷ [];
}

abbrev access_labels : StringMap
access_labels = (namespace_use_for_access_label_key, namespace_use_for_access_label_value_true) ∷ []

abbrev pub small_cluster : Objects
small_cluster = record {
  namespaces = alpha ∷ beta ∷ [];
  roles = beta_viewer ∷ [];
  cluster_roles = beta_reader ∷ [];
  role_bindings =
      record (binding_to "Role" "viewer" alice) {
        meta = record (meta_of "viewers" none) { namespace = "beta" };
      }
      ∷ [];
  cluster_role_bindings =
      record (binding_to "ClusterRole" "reader" dev) {
        meta = meta_of "readers" (some access_labels);
      }
      ∷ binding_to "ClusterRole" "reader" alice
      ∷ [];
}

-- The role binding grants in its own namespace, and the cluster role binding only with the label.
granted-small_cluster :
    (granted small_cluster "beta" alice ≡ true)
    × (granted small_cluster "alpha" alice ≡ false)
    × (granted small_cluster "beta" dev ≡ true)
unfolding granted contains String_dec string_eq subject_eq lookup find_role
granted-small_cluster = (refl, refl, refl)

allowed_subjects_of-granted_example :
    contains
      (allowed_subjects_of rbac_evaluator
        (reader_of team_label small_cluster)
        (attributes_of beta)).0
      alice
    ≡ (system_masters == alice || granted small_cluster "beta" alice)
allowed_subjects_of-granted_example =
    allowed_subjects_of-granted label_selectors strip_managed_fields (λ i. refl) team_label
      small_cluster (reader_of team_label small_cluster)
      (reader_of-IsCacheOf team_label small_cluster) beta rbac_evaluator rbac_evaluator-IsEvaluator
      alice

-- The namespaces that the selector leaves, with whom the evaluator allows what.
abbrev pub beta_alone : Resources
beta_alone = record {
  stored = beta ∷ [];
  allowed_subjects = allowed_subjects_of rbac_evaluator (reader_of team_label small_cluster);
}

-- The program with these resources when the `Synch` of its start has returned.
abbrev settled : Machine
settled = record (initial beta_alone) {
  sched = after;
  resources = record beta_alone {
    stored = (synch (environment beta_alone) (world_of (initial beta_alone))).0.stored;
  };
  phase = outside;
  cache = (synch (environment beta_alone) (world_of (initial beta_alone))).0.cache;
  completed = true;
}

settled-Reaches : Reaches beta_alone settled
settled-Reaches = Reaches-Moves here (synch-Moves (initial beta_alone) inside after starting ending)

settled-ListsNamespaces :
    ListsNamespaces label_selectors strip_managed_fields team_label small_cluster
      settled.resources.stored
unfolding build_cache_options by_object_transformers String_dec string_eq lookup synch
    set_visibility_virtual_label
settled-ListsNamespaces p = refl

api_server-granted_example :
    (nn : NamespaceList) × (reply : Writer) × (api_server encoding none
        (authenticate_request by_header)
        (new_subject_namespace_lister in_order settled.cache)
        blank
        asking
        no_reply
      ≡ ok reply)
    × (reply.status ≡ some 200)
    × (reply.body ≡ some_bytes)
    × ListsGranted label_selectors team_label small_cluster
        (alice ∷ map group_subject ("dev" ∷ []))
        nn.items
unfolding start leave parse_username header_get String_dec string_eq
api_server-granted_example =
    api_server-granted label_selectors strip_managed_fields (λ i. refl) team_label small_cluster
      (reader_of team_label small_cluster) (reader_of-IsCacheOf team_label small_cluster)
      rbac_evaluator rbac_evaluator-IsEvaluator encoding none tt (λ nn. refl) refl by_header blank
      asking (refl, refl) (cc) (cc) in_order beta_alone settled alice settled-Reaches refl refl
      (λ e. cc) callers-after refl refl settled-ListsNamespaces refl
