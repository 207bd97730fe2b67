-- ===== src/System.antt =====
-- The goroutines of Scheduler with the data that they work on: `Synch` and `synch` of
-- pkg/auth/cache/synchronized_access_cache.go call by call, while the resource cache changes and the
-- events on its objects, for which access_cache_startup.go registers `EventHandlerFuncs`, arrive late.
pub mod Relabelling
pub mod Fresh
pub mod Granted
pub mod Courses
pub mod Runs
pub mod Ending
pub mod CatchUp
use namespace_lister.Base.{
  ℕ, suc, String, Bool, true, false, Option, none, some, List, [], ◌∷◌, ◌≡◌, ◌⊎◌,
}
use namespace_lister.AccessCache.{restock}
use namespace_lister.Kube.{Namespace, Subject}
use namespace_lister.Labels.{set_visibility_virtual_label}
use namespace_lister.Synch.{
  Error, other, synch_already_running, AccessData, NamespaceCache, Attributes, Environment,
  new_atomic_list_restock_access_cache, store_access, subjects_for,
}
use namespace_lister.Scheduler.{
  State, start, enter, leave, receive, request, report, waiting, calling, running, stopped, idle,
  busy, update,
}

-- What the resource cache holds: the namespaces, and whom its roles and bindings allow what.
pub record Resources : Type 0 where
  pub stored : List Namespace
  pub allowed_subjects : Attributes → List Subject × Option Error

-- The environment of a run that the resources and the context let finish.
abbrev pub environment : Resources → Environment
environment r = record {
  list_error = none;
  deep_copies = false;
  ctx_err = λ i. none;
  allowed_subjects = r.allowed_subjects;
}

-- Where the run inside `synch` is: before the list of namespaces, or in the loop, with the namespaces
-- that are left and the data so far.
pub data Phase : Type 0 where
  outside listing : Phase
  rounds : List Namespace → AccessData → Phase

-- `undelivered` counts the events on changes that have not reached the handler. `completed` is no
-- variable of the program: it says that the last run of `synch` that ended had no error.
pub record Machine : Type 0 where
  pub sched : State
  pub resources : Resources
  pub undelivered : ℕ
  pub phase : Phase
  pub cache : NamespaceCache
  pub completed : Bool

-- A store after writes of visibility labels to maps that it shares with a run's list.
pub data Relabelled : List Namespace → List Namespace → Type 0 where
  done : Relabelled [] []
  kept :
      (ns : Namespace) {nn mm : List Namespace} → Relabelled nn mm → Relabelled (ns ∷ nn) (ns ∷ mm)
  written :
      (ns : Namespace) (ss : List Subject) {nn mm : List Namespace}
      → Relabelled nn mm
      → Relabelled (ns ∷ nn) (set_visibility_virtual_label ns ss ∷ mm)

-- The worker's or another caller's `Synch` gets past its guard.
pub data Starts (s : State) : State → Type 0 where
  work :
      s.worker ≡ calling
      → (enter s.shared).1 ≡ true
      → Starts s (record s { shared = (enter s.shared).0; worker = running; pending = false })
  call :
      (i : ℕ)
      → s.callers i ≡ idle
      → (enter s.shared).1 ≡ true
      → Starts s (record s {
        shared = (enter s.shared).0;
        callers = update s.callers i busy;
        pending = false;
      })

-- The `Synch` of the worker or of another caller returns what `synch` returned.
pub data Ends (s : State) (err : Option Error) : State → Type 0 where
  worked :
      s.worker ≡ running
      → Ends s err
          (record s { shared = leave s.shared; worker = waiting; handled = report err s.handled })
  called :
      (i : ℕ)
      → s.callers i ≡ busy
      → Ends s err (record s { shared = leave s.shared; callers = update s.callers i idle })

-- The goroutines' steps that neither make a request nor start or end a run.
pub data Elsewhere (s : State) : State → Type 0 where
  cancel : Elsewhere s (record s { cancelled = true })
  tick_stop : s.cancelled ≡ true → Elsewhere s (record s { ticking = false })
  take :
      s.worker ≡ waiting
      → s.shared.requested ≡ true
      → Elsewhere s (record s { shared = receive s.shared; worker = calling })
  refused :
      s.worker ≡ calling
      → (enter s.shared).1 ≡ false
      → Elsewhere s
          (record s { worker = waiting; handled = report (some synch_already_running) s.handled })
  work_stop : s.worker ≡ waiting → s.cancelled ≡ true → Elsewhere s (record s { worker = stopped })
  call_refused : (i : ℕ) → s.callers i ≡ idle → (enter s.shared).1 ≡ false → Elsewhere s s

-- The state when the event handler or the timer has called `Request`.
abbrev pub requesting : State → State
requesting s = record s { shared = (request s.shared).0; pending = true }

-- The data after a round of the loop of `synch`.
unfoldable pub after_round : Resources → Namespace → AccessData → AccessData
after_round r ns c =
    let ss = subjects_for (environment r) ns in
    store_access (set_visibility_virtual_label ns ss) ss c

pub data Move (m : Machine) : Machine → Type 0 where
  -- the resource cache takes in a change, of which an event will be delivered
  change : (r : Resources) → Move m (record m { resources = r; undelivered = suc m.undelivered })
  -- an event is delivered
  deliver :
      (k : ℕ)
      → m.undelivered ≡ suc k
      → Move m (record m { undelivered = k; sched = requesting m.sched })
  tick : m.sched.ticking ≡ true → Move m (record m { sched = requesting m.sched })
  elsewhere : {t : State} → Elsewhere m.sched t → Move m (record m { sched = t })
  begin : {t : State} → Starts m.sched t → Move m (record m { sched = t; phase = listing })
  -- `List` fails, and so does the run
  list_failed :
      (e : String) {t : State}
      → m.phase ≡ listing
      → Ends m.sched (some (other e)) t
      → Move m (record m { sched = t; phase = outside; completed = false })
  list_done : m.phase ≡ listing → Move m (record m { phase = rounds m.resources.stored [] })
  -- the context has ended before a round, and the run fails
  interrupted :
      (e : String) (ns : Namespace) (nn : List Namespace) (c : AccessData) {t : State}
      → m.phase ≡ rounds (ns ∷ nn) c
      → Ends m.sched (some (other e)) t
      → Move m (record m { sched = t; phase = outside; completed = false })
  -- a round: it asks for the subjects of the moment, and writes the label to what maps are shared
  round :
      (ns : Namespace) (nn : List Namespace) (c : AccessData) {stored : List Namespace}
      → m.phase ≡ rounds (ns ∷ nn) c
      → Relabelled m.resources.stored stored
      → Move m (record m {
        resources = record (m.resources) { stored = stored };
        phase = rounds nn (after_round m.resources ns c);
      })
  -- the loop is over: `Restock`, and `Synch` returns
  restocked :
      (c : AccessData) {t : State}
      → m.phase ≡ rounds [] c
      → Ends m.sched none t
      → Move m
          (record m { sched = t; phase = outside; cache = restock c m.cache; completed = true })

-- The program behind `Start`, with anything in the resource cache.
abbrev pub initial : Resources → Machine
initial r = record {
  sched = start;
  resources = r;
  undelivered = 0;
  phase = outside;
  cache = new_atomic_list_restock_access_cache;
  completed = false;
}

pub data Reaches (r : Resources) : Machine → Type 0 where
  here : Reaches r (initial r)
  next : {m n : Machine} → Reaches r m → Move m n → Reaches r n

-- Any number of moves.
pub data Moves : Machine → Machine → Type 0 where
  stay : {m : Machine} → Moves m m
  move : {m n o : Machine} → Move m n → Moves n o → Moves m o
