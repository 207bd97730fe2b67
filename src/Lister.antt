-- ===== src/Lister.antt =====
-- The interface of namespace_lister.go, and `subjectNamespaceLister` of namespacelister_subject.go,
-- which answers from the access cache.
pub mod Usernames
pub mod Presents
pub mod Access
use text.Mathlib.Text.{starts_with}
use namespace_lister.Base.Int.{ℤ}
use namespace_lister.Base.{
  ℕ, zero, suc, String, Option, List, [], ◌∷◌, map, if◌then◌else◌, Slice, Outcome, ok, panic,
  index_out_of_range, ◌>>=◌, Iteration, string_eq,
}
use namespace_lister.Base.Text.{split_on}
use namespace_lister.Kube.{
  Namespace, Subject, subject_eq, rbac_group_name, user_kind, group_kind, service_account_kind,
  core_version,
}
use namespace_lister.AccessCache.{list_keys}
use namespace_lister.Synch.{NamespaceCache}

-- `corev1.NamespaceList`
pub record NamespaceList : Type 0 where
  pub kind : String
  pub api_version : String
  pub items : Slice Namespace

-- An error of a lister: `kerrors.StatusError` carries a code, an int32 of any sign.
pub data ListError : Type 0 where
  status_error : ℤ → String → ListError
  plain_error : String → ListError

pub data Reply : Type 0 where
  success : NamespaceList → Reply
  failure : ListError → Reply

-- `NamespaceLister`: the username and the groups, and what `ListNamespaces` returns
abbrev pub NamespaceLister : Type 0
NamespaceLister = String → List String → Outcome Reply

-- `SubjectNamespacesLister`
abbrev pub SubjectNamespacesLister : Type 0
SubjectNamespacesLister = List Subject → Outcome (Slice Namespace)

-- `xs[i]`
unfoldable pub index : List String → ℕ → Outcome String
index [] i = panic index_out_of_range
index (x ∷ xs) zero = ok x
index (x ∷ xs) (suc i) = index xs i

abbrev pub service_account_prefix : String
service_account_prefix = "system:serviceaccount:"

-- `parseUsername`
unfoldable pub parse_username : String → Outcome Subject
unfolding index split_on
parse_username username =
    if starts_with username service_account_prefix
    then (do
      let ss = split_on b':' username
      name ← index ss 3
      namespace ← index ss 2
      ok (record {
        kind = service_account_kind;
        api_group = "";
        name = name;
        namespace = namespace;
      }))
    else ok
        (record { kind = user_kind; api_group = rbac_group_name; name = username; namespace = "" })

unfoldable pub group_subject : String → Subject
group_subject g = record {
  kind = group_kind;
  api_group = rbac_group_name;
  name = g;
  namespace = "";
}

-- `subjects`
unfoldable pub subjects : String → List String → Outcome (List Subject)
unfolding parse_username group_subject
subjects username groups = do user ← parse_username username; ok (user ∷ map group_subject groups)

-- `ListNamespaces`; it never returns an error
unfoldable pub list_namespaces : SubjectNamespacesLister → NamespaceLister
unfolding subjects
list_namespaces lister username groups = do
  subs ← subjects username groups
  nn ← lister subs
  ok (success (record { kind = "NamespaceList"; api_version = core_version; items = nn }))

-- `NewSubjectNamespaceLister` over the access cache
unfoldable pub new_subject_namespace_lister : Iteration → NamespaceCache → NamespaceLister
unfolding list_namespaces list_keys
new_subject_namespace_lister it c = list_namespaces (list_keys it c)
