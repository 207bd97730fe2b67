-- ===== src/Tests/Metrics.antt =====
-- Tests: the descriptions of the metrics are ones that Prometheus registers, and pkg/metricsutil/const.go
-- spells their names.
use namespace_lister.Base.{
  ℕ, String, Bool, true, ◌&&◌, List, [], ◌∷◌, ◌++◌, ◌≡◌, refl, map, ltb, String_dec, string_eq,
  contains, not,
}
use namespace_lister.Descriptions.{
  Kind, gauge, counter, histogram, Description, full_name_of, http_metrics, access_cache_metrics,
  resources_requests_metric_fullname, time_requests_metric_fullname, sync_metric_fullname,
  subject_namespace_pairs_metric_fullname, subjects_metric_fullname, synch_duration_fullname,
}

-- Each bucket is above the one before it.
abbrev is_increasing : ℕ → List ℕ → Bool
is_increasing n [] = true
is_increasing n (m ∷ ms) = ltb n m && is_increasing m ms

abbrev has_good_buckets : Kind → Bool
has_good_buckets gauge = true
has_good_buckets counter = true
has_good_buckets (histogram unit buckets) = is_increasing 0 buckets

abbrev have_good_buckets : List Description → Bool
have_good_buckets [] = true
have_good_buckets (d ∷ ds) = has_good_buckets d.kind && have_good_buckets ds

abbrev are_distinct : List String → Bool
are_distinct [] = true
are_distinct (n ∷ ns) = not (contains ns n) && are_distinct ns

all_good_buckets : have_good_buckets (http_metrics ++ access_cache_metrics) ≡ true
all_good_buckets = refl

all_distinct : are_distinct (map full_name_of (http_metrics ++ access_cache_metrics)) ≡ true
unfolding contains String_dec string_eq
all_distinct = refl

access_cache_names :
    map full_name_of access_cache_metrics
    ≡ resources_requests_metric_fullname ∷ time_requests_metric_fullname ∷ synch_duration_fullname
      ∷ subjects_metric_fullname ∷ subject_namespace_pairs_metric_fullname ∷ sync_metric_fullname
      ∷ []
access_cache_names = refl
