-- ===== src/MetricsUtil/Laws.antt =====
-- Which sample the reads of pkg/metricsutil/metrics.go return.
use mathlib.Core.List.{Permᴰ}
use Prim.Native.String
use namespace_lister.Base.{
  ◌≡◌, refl, ap, ◌↔◌, ◌&&◌, ◌∙◌, String, Bool, true, List, [], ◌∷◌, ◌++◌, ◌==◌, string_eq,
  Iteration, arith, All, inl, inr, Bool-cases,
}
use namespace_lister.Base.Dict.{Dict, lookup}
use namespace_lister.MetricsUtil.{
  Prometheus, Sample, Read, ok, err, ReadError, sum_not_found, count_not_found, or_empty_text,
  all_match, matches_labels, sample_of, get_vector, get_histogram_sum, get_histogram_count,
}

all_match-perm :
    (metric : Dict String String) {xs ys : List (String × String)}
    → Permᴰ xs ys
    → all_match metric xs ≡ all_match metric ys
unfolding all_match
all_match-perm metric Permᴰ.nil = refl
all_match-perm metric (Permᴰ.cons p r) = ground (arith, all_match-perm metric r)
all_match-perm metric (Permᴰ.swap p q) = ground arith
all_match-perm metric (Permᴰ.trans r s) = all_match-perm metric r ∙ all_match-perm metric s

-- A sample is of the metric of a name, and has the labels that are asked for.
abbrev pub Fits : {Value : Type 0} → String → Dict String String → Sample Value → Type 0
Fits name matchers s =
    (or_empty_text (lookup "__name__" s.metric) ≡ name) × (all_match s.metric matchers ≡ true)

-- The value is that of the first sample that fits, and the error is returned if none fits.
abbrev pub IsFirst :
    {Value : Type 0}
    → ReadError
    → String
    → Dict String String
    → List (Sample Value)
    → Read Value
    → Type 0
IsFirst {Value} missing name matchers vec (ok v) =
    (before : List (Sample Value)) × (s : Sample Value) × (after : List (Sample Value)) × (vec
      ≡ before ++ s ∷ after)
    × All (λ x. ¬ Fits name matchers x) before
    × Fits name matchers s
    × (s.value ≡ v)
IsFirst missing name matchers vec (err e) = (e ≡ missing) × All (λ x. ¬ Fits name matchers x) vec

IsFirst-cons :
    {Value : Type 0} (missing : ReadError) (name : String) (matchers : Dict String String)
    (s : Sample Value) (vec : List (Sample Value)) (r : Read Value)
    → ¬ Fits name matchers s
    → IsFirst missing name matchers vec r
    → IsFirst missing name matchers (s ∷ vec) r
IsFirst-cons missing name matchers s vec (ok v) h (before, t, after, e, none_before, fits, same) =
    (s ∷ before, t, after, ap (λ l. s ∷ l) e, (h, none_before), fits, same)
IsFirst-cons missing name matchers s vec (err e) h (same, none_fits) = (same, (h, none_fits))

module _ {Value : Type 0} (it : Iteration) (name : String) (matchers : Dict String String) where
  -- The test of the loop over the samples.
  abbrev test : Sample Value → Bool
  test s = or_empty_text (lookup "__name__" s.metric) == name && matches_labels it s.metric matchers

  test_iff : (s : Sample Value) → (test s ≡ true) ↔ Fits name matchers s
  unfolding matches_labels
  test_iff s = ground (arith, all_match-perm s.metric (it.visit-perm (String × String) matchers))

  sample_of-IsFirst :
      (missing : ReadError) (vec : List (Sample Value))
      → IsFirst missing name matchers vec (sample_of it missing name matchers vec)
  unfolding sample_of
  sample_of-IsFirst missing [] = (refl, tt)
  sample_of-IsFirst missing (s ∷ vec) = elim (Bool-cases (test s)) [
    | inl fits ↦ rw fits ([], s, vec, refl, tt, (test_iff s).0 fits, refl)
    | inr differs ↦ rw differs (
        IsFirst-cons missing name matchers s vec (sample_of it missing name matchers vec)
          (λ fits. cc ((test_iff s).1 fits)) (sample_of-IsFirst missing vec))
  ]

-- The sum and the count that are read of a histogram are the values of the first samples of their
-- names with all the labels that are asked for, in whatever order those are visited; without such a
-- sample an error says so. The condition: the collector can be read.
get_histogram-IsFirst :
    {Family Value : Type 0} (p : Prometheus Family Value) (it : Iteration) (name : String)
    (matchers : Dict String String) (vec : List (Sample Value))
    → get_vector p name ≡ ok vec
    → IsFirst sum_not_found
        (String.◌++◌ name "_sum")
        matchers
        vec
        (get_histogram_sum p it name matchers)
      × IsFirst count_not_found
          (String.◌++◌ name "_count")
          matchers
          vec
          (get_histogram_count p it name matchers)
unfolding get_histogram_sum get_histogram_count
get_histogram-IsFirst p it name matchers vec h = rw h (
  sample_of-IsFirst it (String.◌++◌ name "_sum") matchers sum_not_found vec,
  sample_of-IsFirst it (String.◌++◌ name "_count") matchers count_not_found vec,
)
