-- ===== src/Descriptions.antt =====
-- The metrics that the program describes to Prometheus: `newHTTPMetrics` of
-- internal/http/middleware/metrics_http.go, `NewAccessCacheMetrics`, `Describe` and `Collect` of
-- pkg/auth/cache/metrics_accesscache.go, and the names in pkg/metricsutil/const.go.
use Prim.Native.Nat.{◌*◌}
use Prim.Native.String
use namespace_lister.Base.{ℕ, String, List, [], ◌∷◌}

-- The kind of a metric. The buckets of a histogram are multiples of a unit, which is one over the
-- first number.
pub data Kind : Type 0 where
  gauge counter : Kind
  histogram : ℕ → List ℕ → Kind

-- The options of a metric, with the names of its labels.
pub record Description : Type 0 where
  pub kind : Kind
  pub namespace : String
  pub subsystem : String
  pub name : String
  pub help : String
  pub labels : List String

-- `prometheus.BuildFQName`, where no part is empty
abbrev pub full_name_of : Description → String
full_name_of d =
    String.◌++◌ d.namespace (String.◌++◌ "_" (String.◌++◌ d.subsystem (String.◌++◌ "_" d.name)))

-- in units of a tenth of a nanosecond
abbrev pub latency_buckets : List ℕ
latency_buckets =
    10 ∷ 25 ∷ 50 ∷ 100 ∷ 250 ∷ 500 ∷ 1000 ∷ 2500 ∷ 5000 ∷ 10000 ∷ 25000 ∷ 50000 ∷ 100000 ∷ 250000
    ∷ 500000 ∷ 1000000 ∷ 2500000 ∷ 5000000 ∷ 10000000 ∷ 25000000 ∷ 50000000 ∷ 100000000 ∷ 250000000
    ∷ 500000000 ∷ 1000000000 ∷ 2500000000 ∷ 5000000000 ∷ 10000000000 ∷ 20000000000 ∷ 50000000000
    ∷ 100000000000 ∷ 200000000000 ∷ 300000000000 ∷ 600000000000 ∷ []

-- in bytes
abbrev pub size_buckets : List ℕ
size_buckets =
    1 ∷ 2 ∷ 5 ∷ 10 ∷ 20 ∷ 50 ∷ 100 ∷ 200 ∷ 500 ∷ 1000 ∷ 2000 ∷ 5000 ∷ 10000 ∷ 20000 ∷ 50000 ∷ 100000
    ∷ 200000 ∷ 500000 ∷ []

-- in milliseconds
abbrev pub synch_buckets : List ℕ
synch_buckets =
    10
    ∷ 50
    ∷ 100
    ∷ 200
    ∷ 500
    ∷ 1000
    ∷ 10 * 1000
    ∷ 30 * 1000
    ∷ 60 * 1000
    ∷ 2 * 60 * 1000
    ∷ 5 * 60 * 1000
    ∷ 10 * 60 * 1000
    ∷ 30 * 60 * 1000
    ∷ 60 * 60 * 1000
    ∷ []

-- `requestTiming`
abbrev pub request_timing : Description
request_timing = record {
  kind = histogram 10000000000 latency_buckets;
  namespace = "namespace_lister";
  subsystem = "api";
  name = "latency";
  help = "Latency of requests";
  labels = "code" ∷ "method" ∷ [];
}

-- `requestCounter`
abbrev pub request_counter : Description
request_counter = record {
  kind = counter;
  namespace = "namespace_lister";
  subsystem = "api";
  name = "counter";
  help = "Number of requests completed";
  labels = "code" ∷ "method" ∷ [];
}

-- `responseSize`
abbrev pub response_size_histogram : Description
response_size_histogram = record {
  kind = histogram 1 size_buckets;
  namespace = "namespace_lister";
  subsystem = "api";
  name = "response_size";
  help = "Size of responses";
  labels = "code" ∷ "method" ∷ [];
}

-- `inFlightGauge`
abbrev pub in_flight_gauge : Description
in_flight_gauge = record {
  kind = gauge;
  namespace = "namespace_lister";
  subsystem = "api";
  name = "requests_in_flight";
  help = "Number of requests currently processing";
  labels = [];
}

-- what `newHTTPMetrics` registers
abbrev pub http_metrics : List Description
http_metrics = request_timing ∷ request_counter ∷ response_size_histogram ∷ in_flight_gauge ∷ []

-- `subjectCounter`
abbrev pub subjects_metric : Description
subjects_metric = record {
  kind = gauge;
  namespace = "namespace_lister";
  subsystem = "accesscache";
  name = "subjects";
  help = "Subjects in the cache";
  labels = [];
}

-- `subjectNamespacePairsCounter`
abbrev pub subject_namespace_pairs_metric : Description
subject_namespace_pairs_metric = record {
  kind = gauge;
  namespace = "namespace_lister";
  subsystem = "accesscache";
  name = "subject_namespace_pairs";
  help = "(Subject, Namespace) pairs in the cache";
  labels = "subject_gk" ∷ [];
}

-- `synchGauge`
abbrev pub synch_metric : Description
synch_metric = record {
  kind = counter;
  namespace = "namespace_lister";
  subsystem = "accesscache";
  name = "synch_op_total";
  help = "synchronization operations";
  labels = "status" ∷ "error" ∷ [];
}

-- `timeRequestsGauge`
abbrev pub time_requests_metric : Description
time_requests_metric = record {
  kind = counter;
  namespace = "namespace_lister";
  subsystem = "accesscache";
  name = "time_requests_total";
  help = "synchronization requests triggered when resync period elapses";
  labels = "status" ∷ [];
}

-- `resourceRequestsGauge`
abbrev pub resource_requests_metric : Description
resource_requests_metric = record {
  kind = counter;
  namespace = "namespace_lister";
  subsystem = "accesscache";
  name = "resource_requests_total";
  help = "synchronization requests triggered by events on watched resources";
  labels = "status" ∷ [];
}

-- `synchDuration`
abbrev pub synch_duration_metric : Description
synch_duration_metric = record {
  kind = histogram 1 synch_buckets;
  namespace = "namespace_lister";
  subsystem = "accesscache";
  name = "synch_duration_milliseconds";
  help = "duration of the synchronization routine";
  labels = "status" ∷ [];
}

-- what `Describe` and `Collect` go over
abbrev pub access_cache_metrics : List Description
access_cache_metrics =
    resource_requests_metric ∷ time_requests_metric ∷ synch_duration_metric ∷ subjects_metric
    ∷ subject_namespace_pairs_metric ∷ synch_metric ∷ []

abbrev pub resources_requests_metric_fullname : String
resources_requests_metric_fullname = "namespace_lister_accesscache_resource_requests_total"

abbrev pub time_requests_metric_fullname : String
time_requests_metric_fullname = "namespace_lister_accesscache_time_requests_total"

abbrev pub sync_metric_fullname : String
sync_metric_fullname = "namespace_lister_accesscache_synch_op_total"

abbrev pub subject_namespace_pairs_metric_fullname : String
subject_namespace_pairs_metric_fullname = "namespace_lister_accesscache_subject_namespace_pairs"

abbrev pub subjects_metric_fullname : String
subjects_metric_fullname = "namespace_lister_accesscache_subjects"

abbrev pub synch_duration_fullname : String
synch_duration_fullname = "namespace_lister_accesscache_synch_duration_milliseconds"
