-- ===== src/Metrics/Collect.antt =====
-- What `Collect` of pkg/auth/cache/metrics_accesscache.go sends, the metrics that count nothing, and
-- `InitRegistry` of metrics.go.
use namespace_lister.Base.{
  Option, none, some, Outcome, ok, panic, failed_must, ℕ, String, List, [], ◌∷◌, ◌++◌, ◌≡◌, refl,
  All, All-append, Iteration, length, inl, inr, ◌⊎◌,
}
use namespace_lister.Descriptions.{
  Description, access_cache_metrics, subjects_metric, subject_namespace_pairs_metric, synch_metric,
  time_requests_metric, resource_requests_metric, synch_duration_metric,
}
use namespace_lister.Metrics.{SynchLabels, AccessCacheMetrics}

-- The value of a metric: a number, or the observations of a histogram.
pub data Value : Type 0 where
  number : ℕ → Value
  observations : List ℕ → Value

-- `prometheus.Metric`: a metric with the values of its labels and its own
pub record Metric : Type 0 where
  pub description : Description
  pub label_values : List String
  pub value : Value

-- `Collect` of a vector: one metric for each of its entries, as they are visited
abbrev metrics_of :
    {K V : Type 0} → Description → (K → List String) → (V → Value) → List (K × V) → List Metric
metrics_of d label_values value [] = []
metrics_of d label_values value ((k, v) ∷ entries) =
    record { description = d; label_values = label_values k; value = value v }
    ∷ metrics_of d label_values value entries

abbrev labels_of : SynchLabels → List String
labels_of l = l.status ∷ l.error ∷ []

-- A gauge alone is a vector with one entry and no labels.
abbrev no_labels : Unit {0} → List String
no_labels u = []

abbrev one : String → List String
one status = status ∷ []

-- `Collect`
unfoldable pub collect_metrics : Iteration → AccessCacheMetrics → List Metric
collect_metrics it m =
    metrics_of resource_requests_metric one number (it.visit _ m.resource_requests_gauge)
    ++ metrics_of time_requests_metric one number (it.visit _ m.time_requests_gauge)
    ++ metrics_of synch_duration_metric one observations (it.visit _ m.synch_duration)
    ++ metrics_of subjects_metric no_labels number ((tt, m.subject_counter) ∷ [])
    ++ metrics_of subject_namespace_pairs_metric one number
        (it.visit _ m.subject_namespace_pairs_counter)
    ++ metrics_of synch_metric labels_of number (it.visit _ m.synch_gauge)

-- `NoOpAccessCacheMetrics`: it has no state, describes and collects nothing, and counts nothing.
pub record NoOpAccessCacheMetrics : Type 0 where

unfoldable pub collect_nothing : NoOpAccessCacheMetrics → List Metric
collect_nothing m = []

-- `collectors.NewProcessCollector`, by the namespace of its options
pub data Collector : Type 0 where
  process_collector : (namespace : String) → Collector

-- `InitRegistry`; `register` is `Register` of the registry, by its error, on which `MustRegister` panics.
unfoldable pub init_registry : (register : Collector → Option String) → Outcome {0} Unit
init_registry register = elim (register (process_collector "namespace_lister")) [
  | none ↦ ok tt
  | some err ↦ panic failed_must
]

-- The metric is one that `Describe` told of, and has a value for each of its labels.
abbrev IsOneOf : Description → List Description → Type 0
IsOneOf d [] = ⊥
IsOneOf d (e ∷ ee) = (d ≡ e) ⊎ IsOneOf d ee

abbrev IsDescribed : Metric → Type 0
IsDescribed x =
    IsOneOf x.description access_cache_metrics
    × (length x.label_values ≡ length x.description.labels)

AllDescribed : List Metric → Type 0
AllDescribed xs = All IsDescribed xs

join : (xs ys : List Metric) → AllDescribed xs → AllDescribed ys → AllDescribed (xs ++ ys)
unfolding AllDescribed
join xs ys = All-append IsDescribed xs ys

metrics_of-IsDescribed :
    {K V : Type 0} (d : Description) (label_values : K → List String) (value : V → Value)
    → IsOneOf d access_cache_metrics
    → ((k : K) → length (label_values k) ≡ length d.labels)
    → (entries : List (K × V)) → AllDescribed (metrics_of d label_values value entries)
unfolding AllDescribed
metrics_of-IsDescribed d label_values value among count [] = tt
metrics_of-IsDescribed d label_values value among count ((k, v) ∷ entries) =
    ((among, count k), metrics_of-IsDescribed d label_values value among count entries)

-- In whatever order the vectors are visited, everything that `Collect` sends was described.
collect_metrics-IsDescribed :
    (it : Iteration) (m : AccessCacheMetrics) → AllDescribed (collect_metrics it m)
unfolding collect_metrics
collect_metrics-IsDescribed it m =
    join _ _
      (join _ _
        (join _ _
          (join _ _
            (join _ _
              (metrics_of-IsDescribed resource_requests_metric one number (inl refl) (λ k. refl)
                (it.visit _ m.resource_requests_gauge))
              (metrics_of-IsDescribed time_requests_metric one number (inr (inl refl)) (λ k. refl)
                (it.visit _ m.time_requests_gauge)))
            (metrics_of-IsDescribed synch_duration_metric one observations (inr (inr (inl refl)))
              (λ k. refl) (it.visit _ m.synch_duration)))
          (metrics_of-IsDescribed subjects_metric no_labels number (inr (inr (inr (inl refl))))
            (λ k. refl) ((tt, m.subject_counter) ∷ [])))
        (metrics_of-IsDescribed subject_namespace_pairs_metric one number
          (inr (inr (inr (inr (inl refl))))) (λ k. refl)
          (it.visit _ m.subject_namespace_pairs_counter)))
      (metrics_of-IsDescribed synch_metric labels_of number (inr (inr (inr (inr (inr (inl refl))))))
        (λ k. refl) (it.visit _ m.synch_gauge))
