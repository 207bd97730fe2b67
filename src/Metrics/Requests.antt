-- ===== src/Metrics/Requests.antt =====
-- `CollectRequestMetrics` of pkg/auth/cache/metrics_accesscache.go on the events that the cache makes.
use namespace_lister.Base.{
  ℕ, ◌+◌, String, Bool, ◌≡◌, refl, Eq, ◌==◌, string_eq, if◌then◌else◌, arith, true, false,
}
use namespace_lister.Base.Dict.{Dict, lookup, lookup-insert}
use namespace_lister.Metrics.{
  AccessCacheMetrics, Event, time_triggered_event, add_func, update_func, delete_func,
  get_status_label, collect_request_metrics, or_zero, inc, is_time_triggered_event,
}

lookup-inc :
    {K : Type 0} ⦃e : Eq K⦄ (j k : K) (v : Dict K ℕ)
    → or_zero (lookup j (inc k v)) ≡ or_zero (lookup j v) + (if k == j then 1 else 0)
unfolding inc
lookup-inc j k v = ground (arith, lookup-insert j k (or_zero (lookup k v) + 1) v)

-- The events that the cache makes: one for the timer, and one for each kind of change to an object.
pub data IsMade : Event → Bool → Type 0 where
  timer : IsMade time_triggered_event true
  added : (obj : ℕ) → IsMade (add_func obj) false
  updated : (old new : ℕ) → IsMade (update_func old new) false
  deleted : (obj : ℕ) → IsMade (delete_func obj) false

IsMade-is_time_triggered_event :
    (e : Event) (timed : Bool) → IsMade e timed → is_time_triggered_event e ≡ timed
unfolding is_time_triggered_event add_func update_func delete_func
IsMade-is_time_triggered_event e timed timer = ground arith
IsMade-is_time_triggered_event e timed (added obj) = refl
IsMade-is_time_triggered_event e timed (updated old new) = refl
IsMade-is_time_triggered_event e timed (deleted obj) = refl

-- An event that the cache makes adds one to exactly one counter: the timer's to the counter of timed
-- requests, a change of an object to that of resource requests, under the label that says whether the
-- request was queued. Under every other label both counters keep their values.
collect_request_metrics-counts_once :
    (e : Event) (timed queued : Bool) (m : AccessCacheMetrics) (status : String)
    → IsMade e timed
    → (or_zero (lookup status (collect_request_metrics e queued m).time_requests_gauge)
        ≡ or_zero (lookup status m.time_requests_gauge)
          + (if timed then (if get_status_label queued == status then 1 else 0) else 0))
      × (or_zero (lookup status (collect_request_metrics e queued m).resource_requests_gauge)
          ≡ or_zero (lookup status m.resource_requests_gauge)
            + (if timed then 0 else (if get_status_label queued == status then 1 else 0)))
unfolding collect_request_metrics
collect_request_metrics-counts_once e timed queued m status made = ground (
  arith,
  IsMade-is_time_triggered_event e timed made,
  lookup-inc status (get_status_label queued) m.time_requests_gauge,
  lookup-inc status (get_status_label queued) m.resource_requests_gauge,
)
