-- ===== src/Tests.antt =====
-- Data for runs of the program on concrete inputs: two namespaces, a user and a group.
pub mod Access
pub mod Cache
pub mod Serving
pub mod Policies
pub mod Settings
pub mod Starting
pub mod Running
pub mod Coming
pub mod Setup
pub mod Suite
pub mod Given
pub mod Scenario
pub mod Metrics
pub mod Rbac
pub mod Granting
pub mod History
use namespace_lister.Base.{
  String, Bool, true, false, Option, none, some, List, [], ◌∷◌, if◌then◌else◌, ◌==◌, string_eq,
}
use namespace_lister.Kube.{Namespace, Subject, ObjectMeta, StringMap, rbac_group_name}
use namespace_lister.Synch.{Error, Attributes, Environment, World, NamespaceCache}
use namespace_lister.Lister.Access.{name_of}

abbrev pub alice : Subject
alice = record { kind = "User"; api_group = rbac_group_name; name = "alice"; namespace = "" }

abbrev pub dev : Subject
dev = record { kind = "Group"; api_group = rbac_group_name; name = "dev"; namespace = "" }

abbrev pub meta_of : String → Option StringMap → ObjectMeta
meta_of n labels = record {
  name = n;
  namespace = "";
  labels = labels;
  annotations = none;
  managed_fields = "kubectl" ∷ [];
}

abbrev pub namespace_of : String → Option StringMap → Namespace
namespace_of n labels = record {
  meta = meta_of n labels;
  spec = record { finalizers = "kubernetes" ∷ [] };
  status = record { phase = "Active"; conditions = [] };
}

abbrev pub alpha : Namespace
alpha = namespace_of "alpha" none

abbrev pub beta : Namespace
beta = namespace_of "beta" (some (("team", "b") ∷ []))

-- Who may get a namespace: `alpha` the user, twice over, and the group; any other the group.
abbrev pub allowed : Attributes → List Subject × Option Error
allowed a = if a.name == "alpha" then (dev ∷ alice ∷ alice ∷ [], none) else (dev ∷ [], none)

abbrev pub quiet : Environment
quiet = record {
  list_error = none;
  deep_copies = false;
  ctx_err = λ i. none;
  allowed_subjects = allowed;
}

abbrev pub empty_cache : NamespaceCache
empty_cache = record { cached = none; id_func = name_of }

abbrev pub two_namespaces : World
two_namespaces = record { stored = alpha ∷ beta ∷ []; cache = empty_cache }
