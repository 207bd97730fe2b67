-- ===== src/Subjects/Canonical.antt =====
-- `removeDuplicateSubjects` computes a canonical list of its argument's subjects.
use Prim.Native.String.{compare, then}
use namespace_lister.Base.{
  Ordering, String, ◌≡◌, ◌↔◌, ◌∙◌, sym, true, List, contains, arith, IsNodup,
}
use namespace_lister.Base.Order.{
  IsOrder, IsWeakOrder, compare-IsOrder, on-IsWeakOrder, lex-IsWeakOrder,
}
use namespace_lister.Base.Sort.{
  sort_func, compact_func, IsStrictlySorted, compact_func-IsStrictlySorted, sort_func-contains,
  compact_func-contains, IsStrictlySorted-IsNodup, IsStrictlySorted-unique,
}
use namespace_lister.Kube.{Subject, subject_eq}
use namespace_lister.Subjects.{compare_subjects, same_subject, remove_duplicate_subjects}

by : (f : Subject → String) → IsWeakOrder (λ a b. compare (f a) (f b))
by f = on-IsWeakOrder f compare compare-IsOrder.weak

then-eq : (o p : Ordering) → then o p ≡ Ordering.eq → (o ≡ Ordering.eq) × (p ≡ Ordering.eq)
then-eq o p h = ground arith

compare_subjects-eq : (a b : Subject) → compare_subjects a b ≡ Ordering.eq → a ≡ b
unfolding compare_subjects
compare_subjects-eq a b h =
    let (g, h₁) = then-eq _ _ h in
    let (k, h₂) = then-eq _ _ h₁ in
    let (s, n) = then-eq _ _ h₂ in
    λ i. record {
      kind = compare-IsOrder.eq_of a.kind b.kind k i;
      api_group = compare-IsOrder.eq_of a.api_group b.api_group g i;
      name = compare-IsOrder.eq_of a.name b.name n i;
      namespace = compare-IsOrder.eq_of a.namespace b.namespace s i;
    }

compare_subjects-IsOrder : IsOrder compare_subjects
unfolding compare_subjects
compare_subjects-IsOrder = record {
  weak = lex-IsWeakOrder _ _ (by (λ s. s.api_group)) (
      lex-IsWeakOrder _ _ (by (λ s. s.kind))
        (lex-IsWeakOrder _ _ (by (λ s. s.namespace)) (by (λ s. s.name))));
  eq_of = compare_subjects-eq;
}

same_subject_iff : (a b : Subject) → (same_subject a b ≡ true) ↔ (a ≡ b)
unfolding same_subject
same_subject_iff a b = ground arith

-- Duplicates are removed and nothing else: the result holds exactly the subjects of the argument,
-- each once, in increasing order.
pub remove_duplicate_subjects_lem :
    (ss : List Subject)
    → ((s : Subject) → contains (remove_duplicate_subjects ss) s ≡ contains ss s)
      × IsNodup (remove_duplicate_subjects ss)
      × IsStrictlySorted compare_subjects (remove_duplicate_subjects ss)
unfolding remove_duplicate_subjects
remove_duplicate_subjects_lem ss = (
  λ s.
      compact_func-contains compare_subjects-IsOrder same_subject_iff
        (sort_func compare_subjects ss) s
      ∙ sort_func-contains compare_subjects-IsOrder ss s,
  IsStrictlySorted-IsNodup compare_subjects-IsOrder _ sorted,
  sorted,
)
  where
    sorted :
        IsStrictlySorted compare_subjects
          (compact_func same_subject (sort_func compare_subjects ss))
    sorted = compact_func-IsStrictlySorted compare_subjects-IsOrder same_subject_iff ss

-- The result depends only on which subjects occur, and not on their order or repetition.
pub remove_duplicate_subjects_canonical :
    (ss rr : List Subject)
    → ((s : Subject) → contains ss s ≡ contains rr s)
    → remove_duplicate_subjects ss ≡ remove_duplicate_subjects rr
remove_duplicate_subjects_canonical ss rr same =
    let (held, _, sorted) = remove_duplicate_subjects_lem ss in
    let (held', _, sorted') = remove_duplicate_subjects_lem rr in
    IsStrictlySorted-unique compare_subjects-IsOrder _ _ sorted sorted'
      (λ s. held s ∙ same s ∙ sym (held' s))
