-- ===== src/Tests/Running.antt =====
-- Witnesses: the goroutines with their data, and calls of the access cache.
use namespace_lister.Base.{
  ℕ, true, false, none, some, List, [], ◌∷◌, ◌≡◌, refl, arith, map, ok, in_order, String_dec,
  string_eq, nat_eq,
}
use namespace_lister.Synch.{other, synch, Environment}
use namespace_lister.Scheduler.{State, start, enter, leave, idle, busy, update}
use namespace_lister.System.{
  Resources, environment, outside, listing, begin, Machine, Starts, call, Ends, called, initial,
  Reaches, here, next, Moves,
}
use namespace_lister.System.Fresh.{IsFresh, Reaches-IsFresh}
use namespace_lister.System.Courses.{is_unaided, Only}
use namespace_lister.System.CatchUp.{Reaches-Moves}
use namespace_lister.System.Runs.{world_of, synch-Moves}
use namespace_lister.Lister.{
  NamespaceList, group_subject, parse_username, new_subject_namespace_lister,
}
use namespace_lister.Lister.Access.{ListsAccess}
use namespace_lister.Http.{Writer, no_reply, header_get}
use namespace_lister.Http.Authn.{authenticate_request}
use namespace_lister.Http.Server.{api_server}
use namespace_lister.Service.{api_server-up_to_date, api_server-catches_up}
use namespace_lister.Metrics.{Event, time_triggered_event, new_access_cache_metrics}
use namespace_lister.Calls.{Cache, Call, synchronise, ask, run_calls}
use namespace_lister.Calls.Counts.{total, observations, requests_of, run_calls-counts_once}
use namespace_lister.Tests.{quiet, allowed, two_namespaces, alice, alpha, beta}
use namespace_lister.Tests.Serving.{encoding, some_bytes, by_header, blank, asking}

abbrev add_event : Event
add_event = record { object = some 1; event_type = "Add"; time_triggered = false }

-- An environment in which the namespaces cannot be listed.
abbrev broken : Environment
broken = record quiet { list_error = some (other "no cache") }

abbrev pub two : Resources
two = record { stored = alpha ∷ beta ∷ []; allowed_subjects = allowed }

-- The state in the `Synch` of the start, and the state after it.
abbrev pub inside : State
inside = record start {
  shared = (enter start.shared).0;
  callers = update start.callers 0 busy;
  pending = false;
}

abbrev pub after : State
after = record inside { shared = leave inside.shared; callers = update inside.callers 0 idle }

pub starting : Starts start inside
unfolding enter start
starting = call 0 refl refl

pub ending : Ends inside none after
unfolding nat_eq native.Mathlib.Decide.ℕ_discrete
ending = called 0 refl

-- The program when the `Synch` of its start has returned.
abbrev started : Machine
started = record (initial two) {
  sched = after;
  resources = record two { stored = (synch (environment two) (world_of (initial two))).0.stored };
  phase = outside;
  cache = (synch (environment two) (world_of (initial two))).0.cache;
  completed = true;
}

synch-Moves_example : Moves (initial two) started
synch-Moves_example = synch-Moves (initial two) inside after starting ending

started-Moves : Moves (initial two) started
started-Moves = synch-Moves (initial two) inside after starting ending

started-Reaches : Reaches two started
started-Reaches = Reaches-Moves here started-Moves

-- The program in the first run of `synch`, before the list.
abbrev in_synch : Machine
in_synch = record (initial two) { sched = inside; phase = listing }

pub callers-after : (i : ℕ) → after.callers i ≡ idle
unfolding start
callers-after i = ground arith

Reaches-IsFresh_example : IsFresh started
unfolding start leave
Reaches-IsFresh_example = Reaches-IsFresh started-Reaches refl refl (λ e. cc) callers-after refl

api_server-up_to_date_example :
    (nn : NamespaceList) × (reply : Writer) × (api_server encoding none
        (authenticate_request by_header)
        (new_subject_namespace_lister in_order started.cache)
        blank
        asking
        no_reply
      ≡ ok reply)
    × (reply.status ≡ some 200)
    × (reply.body ≡ some_bytes)
    × ListsAccess
        (environment started.resources)
        started.resources.stored
        (alice ∷ map group_subject ("dev" ∷ []))
        nn.items
unfolding start leave parse_username header_get String_dec string_eq
api_server-up_to_date_example =
    api_server-up_to_date encoding none tt (λ nn. refl) refl by_header blank asking (refl, refl)
      (cc) (cc) in_order two started alice started-Reaches refl refl (λ e. cc) callers-after refl
      refl

api_server-catches_up_example :
    (n : Machine) × Only is_unaided in_synch n
    × (n.resources.allowed_subjects ≡ allowed)
    × (n.undelivered ≡ 0)
    × ((nn : NamespaceList) × (reply : Writer) × (api_server encoding none
            (authenticate_request by_header)
            (new_subject_namespace_lister in_order n.cache)
            blank
            asking
            no_reply
          ≡ ok reply)
        × (reply.status ≡ some 200)
        × (reply.body ≡ some_bytes)
        × ListsAccess
            (environment two)
            two.stored
            (alice ∷ map group_subject ("dev" ∷ []))
            nn.items)
unfolding start parse_username header_get String_dec string_eq
api_server-catches_up_example =
    api_server-catches_up encoding none tt (λ nn. refl) refl by_header blank asking (refl, refl)
      (cc) (cc) in_order two in_synch alice (next here (begin starting)) refl refl

abbrev idle_cache : Cache
idle_cache = record {
  shared = start.shared;
  world = two_namespaces;
  metrics = new_access_cache_metrics;
}

abbrev calls : List (Call in_order)
calls = ask add_event ∷ synchronise quiet 7 ∷ ask time_triggered_event ∷ synchronise broken 3 ∷ []

run_calls-counts_once_example :
    let m = (run_calls in_order calls idle_cache).metrics in
    (total m.synch_gauge ≡ 2)
    × (observations m.synch_duration ≡ 2)
    × (requests_of m ≡ 2)
    × ((run_calls in_order calls idle_cache).shared.synchronizing ≡ false)
unfolding start new_access_cache_metrics
run_calls-counts_once_example = run_calls-counts_once in_order calls idle_cache refl
