-- ===== src/Labels.antt =====
-- The virtual labels and annotations of pkg/auth/cache/synchronized_access_cache.go: the constants,
-- `setVisibilityVirtualLabel` and `withVirtualLabelsAndAnnotationsForAccess`.
pub mod Laws
use Prim.Native.String
use Prim.Native.String.{char_at}
use namespace_lister.Base.{
  String, Char, code, ℕ, ◌-◌, leb, Bool, ◌&&◌, Option, none, some, List, [], ◌∷◌, if◌then◌else◌,
  ◌==◌, string_eq, any, not,
}
use namespace_lister.Base.Dict.{insert}
use namespace_lister.Kube.{StringMap, Namespace, Subject, rbac_group_name, group_kind}

-- `VirtualLabelKeyAccess` and the other constants
abbrev pub virtual_label_key_access : String
virtual_label_key_access = "virtual.konflux-ci.dev/access"

abbrev pub virtual_label_key_visibility : String
virtual_label_key_visibility = "virtual.konflux-ci.dev/visibility"

abbrev pub visibility_authenticated : String
visibility_authenticated = "authenticated"

abbrev pub visibility_private : String
visibility_private = "private"

abbrev pub virtual_annotation_key_subject_name : String
virtual_annotation_key_subject_name = "virtual.konflux-ci.dev/subject-name"

abbrev pub virtual_annotation_key_subject_namespace : String
virtual_annotation_key_subject_namespace = "virtual.konflux-ci.dev/subject-namespace"

lower_char : Char → Char
lower_char c =
    if leb b'A' (code c) && leb (code c) b'Z'
    then char_at "abcdefghijklmnopqrstuvwxyz" (code c - b'A')
    else c

-- `strings.ToLower` on ASCII text, which the kinds of subjects are.
unfoldable pub to_lower : String → String
unfolding lower_char
to_lower String.[] = String.[]
to_lower (String.◌∷◌ c s) = String.◌∷◌ (lower_char c) (to_lower s)

-- A map to write to: the one given, or a new one if it is nil.
abbrev pub map_or_new : Option StringMap → StringMap
map_or_new none = []
map_or_new (some m) = m

-- A write to a map that has an effect only if the map is not nil.
abbrev pub if_not_nil : (StringMap → StringMap) → Option StringMap → Option StringMap
if_not_nil write none = none
if_not_nil write (some m) = some (write m)

-- the matcher function of `setVisibilityVirtualLabel`
unfoldable pub is_system_authenticated_group : Subject → Bool
is_system_authenticated_group sub =
    sub.api_group == rbac_group_name && sub.kind == group_kind && sub.name == "system:authenticated"

-- the value that `setVisibilityVirtualLabel` chooses
unfoldable pub visibility_of : List Subject → String
unfolding is_system_authenticated_group
visibility_of subs =
    if any is_system_authenticated_group subs then visibility_authenticated else visibility_private

-- `setVisibilityVirtualLabel`: the write goes to the map that the namespace refers to. A nil map is
-- replaced by a new one in a local variable only, so then the namespace does not change.
unfoldable pub set_visibility_virtual_label : Namespace → List Subject → Namespace
unfolding visibility_of
set_visibility_virtual_label ns subs = record ns {
  meta = record (ns.meta) {
    labels = if_not_nil (insert virtual_label_key_visibility (visibility_of subs)) ns.meta.labels;
  };
}

-- `withVirtualLabelsAndAnnotationsForAccess`: the result is a deep copy, the argument is not changed.
unfoldable pub with_virtual_labels_and_annotations_for_access : Namespace → Subject → Namespace
unfolding to_lower
with_virtual_labels_and_annotations_for_access ns sub =
    let ll = insert virtual_label_key_access (to_lower sub.kind) (map_or_new ns.meta.labels) in
    let aa = insert virtual_annotation_key_subject_name sub.name (map_or_new ns.meta.annotations) in
    let aa' =
      (if not (sub.namespace == "")
        then insert virtual_annotation_key_subject_namespace sub.namespace aa
        else aa) in
    record ns { meta = record (ns.meta) { labels = some ll; annotations = some aa' } }
