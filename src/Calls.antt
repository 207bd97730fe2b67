-- ===== src/Calls.antt =====
-- `Synch` and `Request` of pkg/auth/cache/synchronized_access_cache.go as calls that run to their end:
-- the guard, `synch`, the metrics of pkg/auth/cache/metrics_accesscache.go, and the flag at the end.
pub mod Counts
use namespace_lister.Base.{
  ℕ, String, Bool, Option, none, some, List, [], ◌∷◌, if◌then◌else◌, Iteration,
}
use namespace_lister.Synch.{
  Error, synch_already_running, other, AccessData, Environment, World, synch,
}
use namespace_lister.Scheduler.{Shared, request, enter, leave}
use namespace_lister.Metrics.{
  Event, AccessCacheMetrics, collect_request_metrics, collect_synch_metrics,
}

-- `SynchronizedAccessCache` with the store of its reader and its metrics.
pub record Cache : Type 0 where
  pub shared : Shared
  pub world : World
  pub metrics : AccessCacheMetrics

-- `err.Error()`
unfoldable pub error_text : Error → String
error_text synch_already_running = "Synch operation already running"
error_text (other m) = m

abbrev pub text_of : Option Error → Option String
text_of none = none
text_of (some err) = some (error_text err)

-- A map that may be nil, to read.
abbrev pub data_or_empty : Option AccessData → AccessData
data_or_empty none = []
data_or_empty (some c) = c

module _ (it : Iteration) where
  -- `Synch`; `duration` is the time that the run of `synch` takes, in milliseconds.
  unfoldable pub synch_call : Environment → ℕ → Cache → Cache × Option Error
  unfolding enter leave synch collect_synch_metrics error_text
  synch_call env duration s =
      let (entered, free) = enter s.shared in
      let (w, cache_data, err) = synch env s.world in
      if free
      then (
        record {
          shared = leave entered;
          world = w;
          metrics =
              collect_synch_metrics it duration (data_or_empty cache_data) (text_of err) s.metrics;
        },
        err,
      )
      else (s, some synch_already_running)

  -- `Request`
  unfoldable pub request_call : Event → Cache → Cache × Bool
  unfolding request collect_request_metrics
  request_call event s =
      let (shared, queued) = request s.shared in
      (
        record s { shared = shared; metrics = collect_request_metrics event queued s.metrics },
        queued,
      )

  -- A call by whoever makes it.
  pub data Call : Type 0 where
    synchronise : Environment → ℕ → Call
    ask : Event → Call

  -- The calls one after the other.
  unfoldable pub run_calls : List Call → Cache → Cache
  unfolding synch_call request_call
  run_calls [] s = s
  run_calls (synchronise env duration ∷ cc) s = run_calls cc (synch_call env duration s).0
  run_calls (ask event ∷ cc) s = run_calls cc (request_call event s).0
