-- ===== src/Metrics.antt =====
-- pkg/auth/cache/metrics_accesscache.go, and the events of synchronized_access_cache_event.go that it
-- counts. A vector of counters or gauges is a map from the values of its labels.
pub mod Requests
pub mod Collect
pub mod Pairs
use Prim.Native.Char.{code}
use Prim.Native.String
use namespace_lister.Base.{
  ℕ, zero, suc, ◌+◌, String, String_dec, Bool, true, false, ◌&&◌, not, Option, none, some, List, [],
  ◌∷◌, length, Eq, ◌==◌, string_eq, nat_eq, if◌then◌else◌, Slice, elements, Iteration,
}
use namespace_lister.Base.Dict.{Dict, lookup, insert}
use namespace_lister.Kube.{Subject, Namespace}
use namespace_lister.Synch.{AccessData}

-- `Event`: `object` identifies the object, if there is one.
pub record Event : Type 0 where
  pub object : Option ℕ
  pub event_type : String
  pub time_triggered : Bool

-- `timeTriggeredEvent`
abbrev pub time_triggered_event : Event
time_triggered_event = record { object = none; event_type = ""; time_triggered = true }

-- the three functions of `EventHandlerFuncs`, by what they hand to `Request`
unfoldable pub add_func : ℕ → Event
add_func obj = record { object = some obj; event_type = "Add"; time_triggered = false }

unfoldable pub update_func : (old new : ℕ) → Event
update_func old new = record { object = some new; event_type = "Update"; time_triggered = false }

unfoldable pub delete_func : ℕ → Event
delete_func obj = record { object = some obj; event_type = "Delete"; time_triggered = false }

-- the labels of `synchGauge`
pub record SynchLabels : Type 0 where
  pub status : String
  pub error : String

SynchLabels_dec : Discrete SynchLabels
SynchLabels_dec = hlevel String_dec

instance unfoldable pub synch_labels_eq : Eq SynchLabels
unfolding SynchLabels_dec String_dec
synch_labels_eq = record { dec = SynchLabels_dec }

-- `accessCacheMetrics`: of the histogram of durations the values observed, the latest first.
pub record AccessCacheMetrics : Type 0 where
  pub subject_counter : ℕ
  pub subject_namespace_pairs_counter : Dict String ℕ
  pub synch_gauge : Dict SynchLabels ℕ
  pub synch_duration : Dict String (List ℕ)
  pub resource_requests_gauge : Dict String ℕ
  pub time_requests_gauge : Dict String ℕ

-- `NewAccessCacheMetrics`, with nothing counted yet; names, help texts and buckets are in Descriptions.
unfoldable pub new_access_cache_metrics : AccessCacheMetrics
new_access_cache_metrics = record {
  subject_counter = 0;
  subject_namespace_pairs_counter = [];
  synch_gauge = [];
  synch_duration = [];
  resource_requests_gauge = [];
  time_requests_gauge = [];
}

abbrev pub or_zero : Option ℕ → ℕ
or_zero none = 0
or_zero (some n) = n

abbrev pub or_empty : Option (List ℕ) → List ℕ
or_empty none = []
or_empty (some ns) = ns

-- `With(labels).Inc()`
unfoldable pub inc : {K : Type 0} ⦃e : Eq K⦄ → K → Dict K ℕ → Dict K ℕ
inc labels v = insert labels (or_zero (lookup labels v) + 1) v

-- `With(labels).Observe(d)`
unfoldable pub observe : String → ℕ → Dict String (List ℕ) → Dict String (List ℕ)
observe labels d v = insert labels (d ∷ or_empty (lookup labels v)) v

no_object : Option ℕ → Bool
no_object none = true
no_object (some obj) = false

-- `event == timeTriggeredEvent`
unfoldable pub is_time_triggered_event : Event → Bool
unfolding no_object
is_time_triggered_event e = no_object e.object && e.event_type == "" && e.time_triggered

-- `getStatusLabel`
unfoldable pub get_status_label : Bool → String
get_status_label queued = if queued then "queued" else "skipped"

-- `CollectRequestMetrics`, with the two functions that it calls
unfoldable pub collect_request_metrics : Event → Bool → AccessCacheMetrics → AccessCacheMetrics
unfolding is_time_triggered_event get_status_label inc
collect_request_metrics event queued m =
    let status = get_status_label queued in
    if is_time_triggered_event event
    then record m { time_requests_gauge = inc status m.time_requests_gauge }
    else record m { resource_requests_gauge = inc status m.resource_requests_gauge }

-- `strings.TrimLeft(s, "/")`
unfoldable pub trim_slashes : String → String
trim_slashes String.[] = String.[]
trim_slashes (String.◌∷◌ c s) =
    let rest = trim_slashes s in if code c == b'/' then rest else String.◌∷◌ c s

unfoldable pub subject_gk : Subject → String
unfolding trim_slashes
subject_gk s = trim_slashes (String.◌++◌ s.api_group (String.◌++◌ "/" s.kind))

-- the loop that counts the pairs
unfoldable pub count_pairs : List (Subject × Slice Namespace) → Dict String ℕ → Dict String ℕ
unfolding subject_gk
count_pairs [] counts = counts
count_pairs ((s, v) ∷ entries) counts =
    let sgk = subject_gk s in
    count_pairs entries (insert sgk (or_zero (lookup sgk counts) + length (elements v)) counts)

-- the loop that sets the gauges
unfoldable pub set_gauges : List (String × ℕ) → Dict String ℕ → Dict String ℕ
set_gauges [] gauges = gauges
set_gauges ((gk, n) ∷ counts) gauges = set_gauges counts (insert gk n gauges)

-- `CollectSynchMetrics`: `failed` is the text of the error, if there is one.
unfoldable pub collect_synch_metrics :
    Iteration → ℕ → AccessData → Option String → AccessCacheMetrics → AccessCacheMetrics
unfolding inc observe count_pairs set_gauges
collect_synch_metrics it duration cache_data (some message) m = record m {
  synch_duration = observe "failed" duration m.synch_duration;
  synch_gauge = inc (record { status = "failed"; error = message }) m.synch_gauge;
}
collect_synch_metrics it duration cache_data none m =
    let counts = count_pairs (it.visit (Subject × Slice Namespace) cache_data) [] in
    record m {
      synch_duration = observe "completed" duration m.synch_duration;
      synch_gauge = inc (record { status = "completed"; error = "" }) m.synch_gauge;
      subject_counter = length cache_data;
      subject_namespace_pairs_counter =
          set_gauges (it.visit (String × ℕ) counts) m.subject_namespace_pairs_counter;
    }
