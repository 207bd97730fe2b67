-- ===== src/Tests/Settings.antt =====
-- Witnesses: the options and the metrics of the access cache on concrete inputs.
use namespace_lister.Base.{
  ℕ, ◌≡◌, String, Option, none, some, [], ◌∷◌, in_order, if◌then◌else◌, ◌==◌, string_eq, arith,
}
use namespace_lister.Base.Dict.{lookup}
use namespace_lister.Base.Int.{ℤ, pos, negsuc, ◌≤ℤ◌}
use namespace_lister.Options.{
  CacheSynchronizerOptions, apply, get_valid_resync_period_from_env_or_zero,
}
use namespace_lister.Options.Laws.{apply-IsPositive}
use namespace_lister.Metrics.{AccessCacheMetrics, collect_synch_metrics}
use namespace_lister.Metrics.Pairs.{pairs_of, or_old, pairs_counter-pairs_of}
use namespace_lister.Synch.{AccessData}
use namespace_lister.Tests.{alice, dev, alpha, beta}

abbrev options_with : ℤ → CacheSynchronizerOptions ℕ ℕ ℕ
options_with period = record {
  logger = none;
  resync_period = period;
  synch_timeout = pos 0;
  sync_error_handler = none;
  metrics = none;
}

-- A parser of durations that knows one text.
abbrev parse_one : String → Option ℤ
parse_one s = if s == "-5s" then some (negsuc 4999999999) else none

apply-IsPositive_example : pos 1 ≤ℤ (apply 0 0 0 (options_with (pos 0))).resync_period
unfolding get_valid_resync_period_from_env_or_zero
apply-IsPositive_example =
    apply-IsPositive 0 0 0 (options_with (pos 0)) parse_one (some "-5s") (ground arith)

-- A table for two users and a group, and metrics that still show service accounts.
abbrev table : AccessData
table = (alice, some (alpha ∷ [])) ∷ (dev, some (alpha ∷ beta ∷ [])) ∷ []

abbrev metrics : AccessCacheMetrics
metrics = record {
  subject_counter = 1;
  subject_namespace_pairs_counter = ("ServiceAccount", 7) ∷ [];
  synch_gauge = [];
  synch_duration = [];
  resource_requests_gauge = ("queued", 4) ∷ [];
  time_requests_gauge = [];
}

pairs_counter-pairs_of_example :
    lookup "ServiceAccount"
      (collect_synch_metrics in_order 12 table none metrics).subject_namespace_pairs_counter
    ≡ or_old
        (pairs_of "ServiceAccount" table)
        (lookup "ServiceAccount" metrics.subject_namespace_pairs_counter)
pairs_counter-pairs_of_example = pairs_counter-pairs_of in_order 12 table metrics "ServiceAccount"
