-- ===== src/Labels/Laws.antt =====
-- What a listed namespace shows of the access that it is listed for.
use namespace_lister.Base.{
  any, ◌⊎◌, inl, inr, ◌∙◌, [], ◌∷◌, String_dec, String, ◌≡◌, refl, ap, Bool, true, false, ◌&&◌,
  Option, none, some, List, arith, if◌then◌else◌, ◌==◌, string_eq, not,
}
use namespace_lister.Base.Dict.{lookup, insert, lookup-insert, insert-insert}
use namespace_lister.Kube.{StringMap, Namespace, Subject}
use namespace_lister.Labels.{
  virtual_label_key_access, virtual_label_key_visibility, virtual_annotation_key_subject_name,
  virtual_annotation_key_subject_namespace, to_lower, map_or_new, if_not_nil, visibility_of,
  is_system_authenticated_group, set_visibility_virtual_label,
  with_virtual_labels_and_annotations_for_access,
}

abbrev pub has_labels : Option StringMap → Bool
has_labels none = false
has_labels (some m) = true

-- The value that `synch` stores for a namespace, its allowed subjects and one of them.
unfoldable pub listed : Namespace → List Subject → Subject → Namespace
listed ns subs sub =
    with_virtual_labels_and_annotations_for_access (set_visibility_virtual_label ns subs) sub

-- Reads of a namespace's labels and annotations, as a client of the API makes them.
abbrev pub label : String → Namespace → Option String
label key ns = lookup key (map_or_new ns.meta.labels)

abbrev pub annotation : String → Namespace → Option String
annotation key ns = lookup key (map_or_new ns.meta.annotations)

-- The visibility label is written if the map of labels is not nil, and no other label changes.
lookup_visibility :
    (key : String) (labels : Option StringMap) (subs : List Subject)
    → lookup key
        (map_or_new (if_not_nil (insert virtual_label_key_visibility (visibility_of subs)) labels))
      ≡ (if has_labels labels && virtual_label_key_visibility == key
          then some (visibility_of subs)
          else lookup key (map_or_new labels))
lookup_visibility key none subs = refl
lookup_visibility key (some ll) subs =
    lookup-insert key virtual_label_key_visibility (visibility_of subs) ll

everybody :
    (subs : List Subject)
    → any is_system_authenticated_group subs
      ≡ any
          (λ s.
            s.kind == "Group"
            && s.name == "system:authenticated"
            && s.api_group == "rbac.authorization.k8s.io")
          subs
unfolding is_system_authenticated_group
everybody [] = refl
everybody (s ∷ subs) = ground (arith, everybody subs)

-- What the two functions write, and where.
pub label-inserted :
    (key : String) (ns : Namespace) (subs : List Subject) (sub : Subject)
    → label key (listed ns subs sub) ≡ (
        if virtual_label_key_access == key
        then some (to_lower sub.kind)
        else if has_labels ns.meta.labels && virtual_label_key_visibility == key
        then some (visibility_of subs)
        else label key ns)
unfolding listed set_visibility_virtual_label with_virtual_labels_and_annotations_for_access
label-inserted key ns subs sub =
    rw (lookup-insert key virtual_label_key_access) (rw (lookup_visibility key ns.meta.labels subs))

lower_kind :
    (kind : String)
    → (kind ≡ "User") ⊎ ((kind ≡ "Group") ⊎ (kind ≡ "ServiceAccount"))
    → to_lower kind
      ≡ (if kind == "User" then "user" else if kind == "Group" then "group" else "serviceaccount")
unfolding to_lower String_dec string_eq
lower_kind kind (inl e) = rw e refl
lower_kind kind (inr (inl e)) = rw e refl
lower_kind kind (inr (inr e)) = rw e refl

-- The labels of a listed namespace. Under `virtual.konflux-ci.dev/access` it has `user`, `group` or
-- `serviceaccount`, by the kind of the subject that it is listed for. Where the namespace has a map of
-- labels, `virtual.konflux-ci.dev/visibility` is `authenticated` if one of the allowed subjects is the
-- group `system:authenticated` of RBAC, and `private` if none is; where it has none, no visibility
-- label is written. Every other label is as it was. The condition: the subject is of a kind that RBAC
-- knows.
pub label-listed :
    (key : String) (ns : Namespace) (subs : List Subject) (sub : Subject)
    → (sub.kind ≡ "User") ⊎ ((sub.kind ≡ "Group") ⊎ (sub.kind ≡ "ServiceAccount"))
    → label key (listed ns subs sub) ≡ (
        if "virtual.konflux-ci.dev/access" == key
        then some (
            if sub.kind == "User"
            then "user"
            else if sub.kind == "Group"
            then "group"
            else "serviceaccount")
        else if has_labels ns.meta.labels && "virtual.konflux-ci.dev/visibility" == key
        then some (
            if any
              (λ s.
                s.kind == "Group"
                && s.name == "system:authenticated"
                && s.api_group == "rbac.authorization.k8s.io")
              subs
            then "authenticated"
            else "private")
        else label key ns)
unfolding visibility_of is_system_authenticated_group
label-listed key ns subs sub known =
    label-inserted key ns subs sub ∙ rw (lower_kind sub.kind known, everybody subs) refl

-- The annotations of a listed namespace name the subject that it is listed for, with the subject's
-- namespace if it has one, and every other annotation is as it was.
annotation-listed :
    (key : String) (ns : Namespace) (subs : List Subject) (sub : Subject)
    → annotation key (listed ns subs sub) ≡ (
        if not (sub.namespace == "") && virtual_annotation_key_subject_namespace == key
        then some sub.namespace
        else if virtual_annotation_key_subject_name == key
        then some sub.name
        else annotation key ns)
unfolding listed set_visibility_virtual_label with_virtual_labels_and_annotations_for_access
annotation-listed key ns subs sub =
    let named =
      insert virtual_annotation_key_subject_name sub.name (map_or_new ns.meta.annotations) in
    ground (
      arith,
      lookup-insert key virtual_annotation_key_subject_namespace sub.namespace named,
      lookup-insert key virtual_annotation_key_subject_name sub.name
          (map_or_new ns.meta.annotations),
    )

if_not_nil-insert :
    (v w : String) (labels : Option StringMap)
    → if_not_nil
        (insert virtual_label_key_visibility v)
        (if_not_nil (insert virtual_label_key_visibility w) labels)
      ≡ if_not_nil (insert virtual_label_key_visibility v) labels
if_not_nil-insert v w none = refl
if_not_nil-insert v w (some m) = ap some (insert-insert virtual_label_key_visibility v w m)

-- The later write of the visibility label decides.
pub set_visibility-set_visibility :
    (ns : Namespace) (subs earlier : List Subject)
    → set_visibility_virtual_label (set_visibility_virtual_label ns earlier) subs
      ≡ set_visibility_virtual_label ns subs
unfolding set_visibility_virtual_label
set_visibility-set_visibility ns subs earlier =
    rw (if_not_nil-insert (visibility_of subs) (visibility_of earlier) ns.meta.labels)
