-- ===== src/Scheduler.antt =====
-- When the cache is synchronized: `Synch`, `Request` and the goroutines of `Start` of
-- pkg/auth/cache/synchronized_access_cache.go, interleaved in any order.
pub mod Exclusion
pub mod Requests
use namespace_lister.Base.{
  ℕ, String, Bool, true, false, Option, none, some, List, [], ◌∷◌, if◌then◌else◌, ◌≡◌, ◌⊎◌, ◌==◌,
  nat_eq,
}
use namespace_lister.Synch.{Error, synch_already_running, other}

-- The fields of `SynchronizedAccessCache` that the goroutines share: whether the channel `requested`,
-- of capacity 1, holds a request, and the flag `synchronizing`.
pub record Shared : Type 0 where
  pub requested : Bool
  pub synchronizing : Bool

-- `isSynchAlreadyRunningErr`
unfoldable pub is_synch_already_running_err : Option Error → Bool
is_synch_already_running_err (some synch_already_running) = true
is_synch_already_running_err (some (other m)) = false
is_synch_already_running_err none = false

-- `request`: a send that does not wait, with its answer.
unfoldable pub request : Shared → Shared × Bool
request s = if s.requested then (s, false) else (record s { requested = true }, true)

-- `<-s.requested`, when a request is present
unfoldable pub receive : Shared → Shared
receive s = record s { requested = false }

-- The `CompareAndSwap(false, true)` of `Synch`, with its answer.
unfoldable pub enter : Shared → Shared × Bool
enter s = if s.synchronizing then (s, false) else (record s { synchronizing = true }, true)

-- the deferred `Store(false)` of `Synch`
unfoldable pub leave : Shared → Shared
leave s = record s { synchronizing = false }

-- The second goroutine of `Start`: at its `select`, with a request in hand, inside `synch`, or gone.
pub data Worker : Type 0 where
  waiting calling running stopped : Worker

-- Any other caller of `Synch`, such as the start of the program.
pub data Caller : Type 0 where
  idle busy : Caller

-- `handled` holds the errors given to `syncErrorHandler`, the latest first. `pending` is no variable
-- of the program: it says that a request was made after the last start of a run of `synch`.
pub record State : Type 0 where
  pub shared : Shared
  pub worker : Worker
  pub ticking : Bool
  pub callers : ℕ → Caller
  pub cancelled : Bool
  pub handled : List Error
  pub pending : Bool

-- the `if` round the call of `syncErrorHandler`
unfoldable pub report : Option Error → List Error → List Error
unfolding is_synch_already_running_err
report none handled = handled
report (some err) handled =
    if is_synch_already_running_err (some err) then err ∷ handled else handled

abbrev pub update : (ℕ → Caller) → ℕ → Caller → ℕ → Caller
update f i c j = if i == j then c else f j

-- `Start` on a new cache: both goroutines run.
unfoldable pub start : State
start = record {
  shared = record { requested = false; synchronizing = false };
  worker = waiting;
  ticking = true;
  callers = λ i. idle;
  cancelled = false;
  handled = [];
  pending = false;
}

pub data Step (s : State) : State → Type 0 where
  -- the context is cancelled
  cancel : Step s (record s { cancelled = true })
  -- an event on a watched resource calls `Request`
  event : Step s (record s { shared = (request s.shared).0; pending = true })
  -- the resync period elapses
  tick : s.ticking ≡ true → Step s (record s { shared = (request s.shared).0; pending = true })
  -- the first goroutine sees the end of the context
  tick_stop : s.cancelled ≡ true → Step s (record s { ticking = false })
  -- the second goroutine takes a request
  take :
      s.worker ≡ waiting
      → s.shared.requested ≡ true
      → Step s (record s { shared = receive s.shared; worker = calling })
  -- its call of `Synch` starts, or is refused
  work :
      s.worker ≡ calling
      → (enter s.shared).1 ≡ true
      → Step s (record s { shared = (enter s.shared).0; worker = running; pending = false })
  refused :
      s.worker ≡ calling
      → (enter s.shared).1 ≡ false
      → Step s
          (record s { worker = waiting; handled = report (some synch_already_running) s.handled })
  -- its run of `synch` ends, with any result
  worked :
      (err : Option Error)
      → err ≡ none ⊎ ((m : String) × (err ≡ some (other m)))
      → s.worker ≡ running
      → Step s
          (record s { shared = leave s.shared; worker = waiting; handled = report err s.handled })
  -- it sees the end of the context
  work_stop : s.worker ≡ waiting → s.cancelled ≡ true → Step s (record s { worker = stopped })
  -- another caller's `Synch` starts, is refused, or ends
  call :
      (i : ℕ)
      → s.callers i ≡ idle
      → (enter s.shared).1 ≡ true
      → Step s (record s {
        shared = (enter s.shared).0;
        callers = update s.callers i busy;
        pending = false;
      })
  call_refused : (i : ℕ) → s.callers i ≡ idle → (enter s.shared).1 ≡ false → Step s s
  called :
      (i : ℕ)
      → s.callers i ≡ busy
      → Step s (record s { shared = leave s.shared; callers = update s.callers i idle })

pub data Reach : State → Type 0 where
  here : Reach start
  next : {s t : State} → Reach s → Step s t → Reach t
