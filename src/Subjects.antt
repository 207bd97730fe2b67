-- ===== src/Subjects.antt =====
-- `removeDuplicateSubjects` of pkg/auth/cache/synchronized_access_cache.go.
pub mod Canonical
use Prim.Native.String.{compare, then}
use namespace_lister.Base.{Ordering, Bool, ◌&&◌, List, Eq, ◌==◌, string_eq}
use namespace_lister.Base.Sort.{sort_func, compact_func}
use namespace_lister.Kube.{Subject}

-- The comparison that is given to `slices.SortFunc`: `then c d` is `c` if it is not 0, else `d`.
unfoldable pub compare_subjects : Subject → Subject → Ordering
compare_subjects a b =
    then (compare a.api_group b.api_group) (
      then (compare a.kind b.kind) (then (compare a.namespace b.namespace) (compare a.name b.name)))

-- the equality that is given to `slices.CompactFunc`
unfoldable pub same_subject : Subject → Subject → Bool
same_subject a b =
    a.api_group == b.api_group && a.kind == b.kind && a.namespace == b.namespace && a.name == b.name

-- `removeDuplicateSubjects`; `slices.Clip` changes the capacity only
unfoldable pub remove_duplicate_subjects : List Subject → List Subject
unfolding compare_subjects same_subject
remove_duplicate_subjects ss = compact_func same_subject (sort_func compare_subjects ss)
