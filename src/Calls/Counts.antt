-- ===== src/Calls/Counts.antt =====
-- Every call is counted once.
use namespace_lister.Base.{
  ℕ, ◌+◌, String, Bool, false, ◌≡◌, refl, ◌∙◌, Option, none, some, List, [], ◌∷◌, length, Eq, arith,
  Iteration, string_eq,
}
use namespace_lister.Base.Dict.{Dict, lookup, insert}
use namespace_lister.Synch.{AccessData, Environment, synch}
use namespace_lister.Scheduler.{request, enter, leave}
use namespace_lister.Metrics.{
  Event, AccessCacheMetrics, synch_labels_eq, inc, observe, or_zero, or_empty, get_status_label,
  collect_request_metrics, collect_synch_metrics,
}
use namespace_lister.Calls.{
  Cache, Call, synchronise, ask, text_of, data_or_empty, synch_call, request_call, run_calls,
}

-- The sum of the counters of a vector.
abbrev pub total : {K : Type 0} → Dict K ℕ → ℕ
total [] = 0
total ((k, n) ∷ v) = n + total v

-- The number of values that a vector of histograms has observed.
abbrev pub observations : {K : Type 0} → Dict K (List ℕ) → ℕ
observations [] = 0
observations ((k, ns) ∷ v) = length ns + observations v

module _ {K : Type 0} ⦃e : Eq K⦄ where
  total-insert :
      (k : K) (n : ℕ) (v : Dict K ℕ) → total (insert k n v) + or_zero (lookup k v) ≡ total v + n
  unfolding insert lookup
  total-insert k n [] = omega arith
  total-insert k n ((j, m) ∷ v) = ground (arith, total-insert k n v)

  pub total-inc : (k : K) (v : Dict K ℕ) → total (inc k v) ≡ total v + 1
  unfolding inc
  total-inc k v = omega (arith, total-insert k (or_zero (lookup k v) + 1) v)

observations-insert :
    (k : String) (ns : List ℕ) (v : Dict String (List ℕ))
    → observations (insert k ns v) + length (or_empty (lookup k v)) ≡ observations v + length ns
unfolding insert lookup
observations-insert k ns [] = omega arith
observations-insert k ns ((j, ms) ∷ v) = ground (arith, observations-insert k ns v)

observations-observe :
    (k : String) (d : ℕ) (v : Dict String (List ℕ))
    → observations (observe k d v) ≡ observations v + 1
unfolding observe
observations-observe k d v = omega (arith, observations-insert k (d ∷ or_empty (lookup k v)) v)

-- The calls of `Synch` among some calls, and those of `Request`.
abbrev pub synchs : {it : Iteration} → List (Call it) → ℕ
synchs [] = 0
synchs (synchronise env d ∷ cc) = 1 + synchs cc
synchs (ask event ∷ cc) = synchs cc

abbrev pub asks : {it : Iteration} → List (Call it) → ℕ
asks [] = 0
asks (synchronise env d ∷ cc) = asks cc
asks (ask event ∷ cc) = 1 + asks cc

-- All the requests that are counted.
abbrev pub requests_of : AccessCacheMetrics → ℕ
requests_of m = total m.resource_requests_gauge + total m.time_requests_gauge

module _ (it : Iteration) where
  collect_synch_metrics-counts :
      (d : ℕ) (c : AccessData) (err : Option String) (m : AccessCacheMetrics)
      → let m' = collect_synch_metrics it d c err m in
        (total m'.synch_gauge ≡ total m.synch_gauge + 1)
        × (observations m'.synch_duration ≡ observations m.synch_duration + 1)
        × (requests_of m' ≡ requests_of m)
  unfolding collect_synch_metrics
  collect_synch_metrics-counts d c none m =
      (total-inc _ m.synch_gauge, observations-observe _ d m.synch_duration, refl)
  collect_synch_metrics-counts d c (some message) m =
      (total-inc _ m.synch_gauge, observations-observe _ d m.synch_duration, refl)

  collect_request_metrics-counts :
      (event : Event) (queued : Bool) (m : AccessCacheMetrics)
      → let m' = collect_request_metrics event queued m in
        (total m'.synch_gauge ≡ total m.synch_gauge)
        × (observations m'.synch_duration ≡ observations m.synch_duration)
        × (requests_of m' ≡ requests_of m + 1)
  unfolding collect_request_metrics
  collect_request_metrics-counts event queued m = ground (
    arith,
    total-inc (get_status_label queued) m.time_requests_gauge,
    total-inc (get_status_label queued) m.resource_requests_gauge,
  )

  synch_call-counts :
      (env : Environment) (d : ℕ) (s : Cache)
      → s.shared.synchronizing ≡ false
      → let t = (synch_call it env d s).0 in
        (total t.metrics.synch_gauge ≡ total s.metrics.synch_gauge + 1)
        × (observations t.metrics.synch_duration ≡ observations s.metrics.synch_duration + 1)
        × (requests_of t.metrics ≡ requests_of s.metrics)
        × (t.shared.synchronizing ≡ false)
  unfolding synch_call enter leave
  synch_call-counts env d s h =
      let r = synch env s.world in
      let counts = collect_synch_metrics-counts d (data_or_empty r.1) (text_of r.2) s.metrics in
      rw h (counts.0, counts.1, counts.2, refl)

  request_call-counts :
      (event : Event) (s : Cache)
      → let t = (request_call it event s).0 in
        (total t.metrics.synch_gauge ≡ total s.metrics.synch_gauge)
        × (observations t.metrics.synch_duration ≡ observations s.metrics.synch_duration)
        × (requests_of t.metrics ≡ requests_of s.metrics + 1)
        × (t.shared.synchronizing ≡ s.shared.synchronizing)
  unfolding request_call request
  request_call-counts event s =
      let (runs, durations, requests) =
        collect_request_metrics-counts event (request s.shared).1 s.metrics in
      (runs, durations, requests, ground arith)

  -- Calls that follow one another, from a state in which no run is in progress, are counted once
  -- each: every call of `Synch` adds one to the counters of runs and one observed duration, every
  -- call of `Request` adds one to the counters of requests, and no run is in progress at the end.
  pub run_calls-counts_once :
      (cc : List (Call it)) (s : Cache)
      → s.shared.synchronizing ≡ false
      → let t = run_calls it cc s in
        (total t.metrics.synch_gauge ≡ total s.metrics.synch_gauge + synchs cc)
        × (observations t.metrics.synch_duration
            ≡ observations s.metrics.synch_duration + synchs cc)
        × (requests_of t.metrics ≡ requests_of s.metrics + asks cc)
        × (t.shared.synchronizing ≡ false)
  unfolding run_calls
  run_calls-counts_once [] s h = (omega arith, omega arith, omega arith, h)
  run_calls-counts_once (synchronise env d ∷ cc) s h =
      let t = (synch_call it env d s).0 in
      let (runs, durations, requests, free) = synch_call-counts env d s h in
      let (runs', durations', requests', free') = run_calls-counts_once cc t free in
      (omega arith, omega arith, omega arith, free')
  run_calls-counts_once (ask event ∷ cc) s h =
      let t = (request_call it event s).0 in
      let (runs, durations, requests, same) = request_call-counts event s in
      let (runs', durations', requests', free') = run_calls-counts_once cc t (same ∙ h) in
      (omega arith, omega arith, omega arith, free')
