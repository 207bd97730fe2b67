-- ===== src/Tests/Access.antt =====
-- Witnesses: subjects, labels, usernames and listings on concrete inputs.
use namespace_lister.Base.{
  String, any, inl, inr, All, IsNodup, String_dec, string_eq, contains, elements, ◌≡◌, refl, ◌&&◌,
  some, [], ◌∷◌, ◌==◌, string_eq, nat_eq, if◌then◌else◌, Slice, map, contains, ok, IsNodup,
  in_order, arith,
}
use namespace_lister.Base.Sort.{IsStrictlySorted}
use namespace_lister.Kube.{Namespace, Subject, subject_eq, core_version}
use namespace_lister.Labels.Laws.{has_labels, listed, label, label-listed}
use namespace_lister.Subjects.{compare_subjects, remove_duplicate_subjects}
use namespace_lister.Subjects.Canonical.{remove_duplicate_subjects_lem}
use namespace_lister.Synch.{synch}
use namespace_lister.Lister.{parse_username, group_subject, success, new_subject_namespace_lister}
use namespace_lister.Lister.Access.{name_of, ListsAccess}
use namespace_lister.Lister.Presents.{Presents, list_namespaces-Presents}
use namespace_lister.UserInfo.{user_info_from_service_account, as_subject, full_name}
use namespace_lister.UserInfo.Roundtrip.{parse_username-full_name_account}
use namespace_lister.Tests.{quiet, two_namespaces, alice, dev, alpha, beta}

remove_duplicate_subjects_lem_example :
    ((s : Subject)
      → contains (remove_duplicate_subjects (dev ∷ alice ∷ alice ∷ [])) s
        ≡ contains (dev ∷ alice ∷ alice ∷ []) s)
    × IsNodup (remove_duplicate_subjects (dev ∷ alice ∷ alice ∷ []))
    × IsStrictlySorted compare_subjects (remove_duplicate_subjects (dev ∷ alice ∷ alice ∷ []))
remove_duplicate_subjects_lem_example = remove_duplicate_subjects_lem (dev ∷ alice ∷ alice ∷ [])

same_subjects :
    (s : Subject) → contains (dev ∷ alice ∷ alice ∷ []) s ≡ contains (alice ∷ dev ∷ []) s
unfolding contains
same_subjects s = ground arith

abbrev everyone : Subject
everyone = record dev { name = "system:authenticated" }

abbrev access_key : String
access_key = "virtual.konflux-ci.dev/access"

abbrev visibility_key : String
visibility_key = "virtual.konflux-ci.dev/visibility"

label-listed_example : label visibility_key (listed beta (dev ∷ everyone ∷ []) dev) ≡ (
    if access_key == visibility_key
    then some (
        if dev.kind == "User"
        then "user"
        else if dev.kind == "Group"
        then "group"
        else "serviceaccount")
    else if has_labels beta.meta.labels && visibility_key == visibility_key
    then some (
        if any
          (λ s.
            s.kind == "Group"
            && s.name == "system:authenticated"
            && s.api_group == "rbac.authorization.k8s.io")
          (dev ∷ everyone ∷ [])
        then "authenticated"
        else "private")
    else label visibility_key beta)
label-listed_example = label-listed visibility_key beta (dev ∷ everyone ∷ []) dev (inr (inl refl))

list_namespaces-Presents_example :
    (r : Slice Namespace) × (new_subject_namespace_lister in_order
        (synch quiet two_namespaces).0.cache
        "alice"
        ("dev" ∷ [])
      ≡ ok (success (record { kind = "NamespaceList"; api_version = core_version; items = r })))
    × ListsAccess quiet (alpha ∷ beta ∷ []) (alice ∷ map group_subject ("dev" ∷ [])) r
    × IsNodup (map name_of (elements r))
    × All (Presents quiet (alpha ∷ beta ∷ []) (alice ∷ map group_subject ("dev" ∷ []))) (elements r)
unfolding parse_username contains String_dec string_eq
list_namespaces-Presents_example =
    list_namespaces-Presents quiet in_order two_namespaces "alice" ("dev" ∷ []) alice refl
      (λ i. refl) refl (refl, (refl, tt)) refl

parse_username-full_name_account_example :
    parse_username (full_name (user_info_from_service_account "ci" "bot" "t"))
    ≡ ok (as_subject (user_info_from_service_account "ci" "bot" "t"))
parse_username-full_name_account_example =
    parse_username-full_name_account "ci" "bot" "t" (ground arith) (ground arith)
