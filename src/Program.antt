-- ===== src/Program.antt =====
-- The start of the program among its goroutines: `buildAndStartSynchronizedAccessCache` of
-- access_cache_startup.go from its call of `Start` on, and `run` of main.go behind it, with the moves
-- of System, which go on all the time.
pub mod Serving
pub mod Granted
pub mod Panics
use namespace_lister.Base.{ℕ, Bool, true, false, ◌≡◌}
use namespace_lister.Synch.{Error, synch_already_running}
use namespace_lister.Scheduler.{enter, idle, busy}
use namespace_lister.System.{Resources, Machine, Move, initial}

-- Where `run` is: it has called `Start`, it is inside its own `Synch`, it has gone on to build the
-- lister and the servers, or it has returned the error of `Synch`.
pub data Phase : Type 0 where
  started synching up : Phase
  refused_at_start failed_at_start : Phase

pub record Program : Type 0 where
  pub machine : Machine
  pub phase : Phase

-- `run` is caller 0 of `Synch`; no other goroutine but the worker calls it.
pub data Step : Program → Program → Type 0 where
  -- anything but the start of a `Synch` by `run`, or its return
  background :
      {m n : Machine} (phase : Phase)
      → Move m n
      → n.sched.callers ≡ m.sched.callers
      → Step (record { machine = m; phase = phase }) (record { machine = n; phase = phase })
  -- the `Synch` of the start gets past its guard, or is refused
  calls :
      {m n : Machine}
      → Move m n
      → m.sched.callers 0 ≡ idle
      → n.sched.callers 0 ≡ busy
      → Step (record { machine = m; phase = started }) (record { machine = n; phase = synching })
  refused :
      {m : Machine}
      → (enter m.sched.shared).1 ≡ false
      → Step
          (record { machine = m; phase = started })
          (record { machine = m; phase = refused_at_start })
  -- its run ends: with nil, or with an error, for which `run` returns
  synched :
      {m n : Machine}
      → Move m n
      → m.sched.callers 0 ≡ busy
      → n.sched.callers 0 ≡ idle
      → n.completed ≡ true
      → Step (record { machine = m; phase = synching }) (record { machine = n; phase = up })
  synch_failed :
      {m n : Machine}
      → Move m n
      → m.sched.callers 0 ≡ busy
      → n.sched.callers 0 ≡ idle
      → n.completed ≡ false
      → Step
          (record { machine = m; phase = synching })
          (record { machine = n; phase = failed_at_start })

pub data Reach (r : Resources) : Program → Type 0 where
  here : Reach r (record { machine = initial r; phase = started })
  next : {p q : Program} → Reach r p → Step p q → Reach r q
