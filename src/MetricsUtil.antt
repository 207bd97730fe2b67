-- ===== src/MetricsUtil.antt =====
-- pkg/metricsutil/metrics.go: reads of the metrics that a collector exposes. `Value` is the type of
-- the values of samples.
pub mod Laws
use Prim.Native.String
use namespace_lister.Base.{
  String, Bool, true, false, not, ◌&&◌, Option, none, some, List, [], ◌∷◌, if◌then◌else◌, ◌==◌,
  string_eq, Iteration,
}
use namespace_lister.Base.Dict.{Dict, lookup}

-- The errors that the functions return: those of Prometheus, and their own three.
pub data ReadError : Type 0 where
  from_prometheus : String → ReadError
  family_not_found sum_not_found count_not_found : ReadError

pub data Read (A : Type 0) : Type 0 where
  ok : A → Read A
  err : ReadError → Read A

infixl 5 ◌>>=◌
abbrev pub ◌>>=◌ : {A B : Type 0} → Read A → (A → Read B) → Read B
ok a >>= f = f a
err e >>= f = err e

-- `model.Sample`; the name of a sample's metric stands under the label `__name__`.
pub record Sample (Value : Type 0) : Type 0 where
  pub metric : Dict String String
  pub value : Value

-- What the functions call: `gather` registers the collector and gathers its families, each with its
-- name, and `extract_samples` is `expfmt.ExtractSamples` of one of them.
pub record Prometheus (Family Value : Type 0) : Type 0 where
  pub gather : Read (List (String × Family))
  pub extract_samples : Family → Read (List (Sample Value))

abbrev pub or_empty_text : Option String → String
or_empty_text none = ""
or_empty_text (some s) = s

-- the loop of `matchesLabels`; a label that is missing reads as the empty text
unfoldable pub all_match : Dict String String → List (String × String) → Bool
all_match metric [] = true
all_match metric ((key, v) ∷ matchers) =
    let rest = all_match metric matchers in
    if not (or_empty_text (lookup key metric) == v) then false else rest

-- `matchesLabels`
unfoldable pub matches_labels : Iteration → Dict String String → Dict String String → Bool
unfolding all_match
matches_labels it metric matchers = all_match metric (it.visit (String × String) matchers)

-- the loop over the families
unfoldable pub family_of : {Family : Type 0} → String → List (String × Family) → Read Family
family_of name [] = err family_not_found
family_of name ((n, mf) ∷ mff) = let rest = family_of name mff in if n == name then ok mf else rest

-- the loop over the samples, with the error for none that fits
unfoldable pub sample_of :
    {Value : Type 0}
    → Iteration
    → ReadError
    → String
    → Dict String String
    → List (Sample Value)
    → Read Value
unfolding matches_labels
sample_of it missing name matchers [] = err missing
sample_of it missing name matchers (s ∷ vec) =
    let rest = sample_of it missing name matchers vec in
    if or_empty_text (lookup "__name__" s.metric) == name && matches_labels it s.metric matchers
    then ok s.value
    else rest

module _ {Family Value : Type 0} (p : Prometheus Family Value) where
  -- `GetMetricFamilyFromCollector`
  unfoldable pub get_metric_family_from_collector : String → Read Family
  unfolding family_of
  get_metric_family_from_collector name = do mff ← p.gather; family_of name mff

  -- `GetVector`
  unfoldable pub get_vector : String → Read (List (Sample Value))
  unfolding get_metric_family_from_collector
  get_vector name = do mf ← get_metric_family_from_collector name; p.extract_samples mf

  -- `GetHistogramSum`
  unfoldable pub get_histogram_sum : Iteration → String → Dict String String → Read Value
  unfolding get_vector sample_of
  get_histogram_sum it name label_matchers = do
    vec ← get_vector name
    sample_of it sum_not_found (String.◌++◌ name "_sum") label_matchers vec

  -- `GetHistogramCount`
  unfoldable pub get_histogram_count : Iteration → String → Dict String String → Read Value
  unfolding get_vector sample_of
  get_histogram_count it name label_matchers = do
    vec ← get_vector name
    sample_of it count_not_found (String.◌++◌ name "_count") label_matchers vec
