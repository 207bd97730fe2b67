-- ===== src/Tests/Starting.antt =====
-- Witness: a start of the program whose first synchronisation fails.
use namespace_lister.Base.{true, false, Option, none, some, String, List, [], inr, refl}
use namespace_lister.Startup.{Action, synch_access_cache, Outside, Flags, run}
use namespace_lister.Startup.Calls.{StopsAtFirstError}
use namespace_lister.Startup.Failures.{calls, run-StopsAtFirstError}

abbrev by_default : Flags
by_default = record {
  has_client = false;
  has_config = true;
  has_registry = true;
  enable_metrics = true;
  enable_tls = true;
}

abbrev refuse_synch : List Action → Action → Option String
refuse_synch done synch_access_cache = some "Synch operation already running"
refuse_synch done a = none

abbrev busy_cache : Outside
busy_cache = record { answer = refuse_synch }

run-StopsAtFirstError_example :
    StopsAtFirstError busy_cache (calls by_default) [] (run busy_cache by_default [])
run-StopsAtFirstError_example = run-StopsAtFirstError busy_cache by_default [] (inr refl)
