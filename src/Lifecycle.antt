-- ===== src/Lifecycle.antt =====
-- The process once `run` of main.go has called `Start` of http_api_server.go: `main`, the goroutine
-- that shuts the server down, those of the metrics server and of the resource cache
-- (internal/resourcecache/cache.go), and signals, interleaved in any order. Of net/http it is used that `ListenAndServe` returns only with an error, that it returns
-- `ErrServerClosed` once `Shutdown` is called, that a server that shuts down takes no new requests, and
-- that `Shutdown` returns without an error only when no request is in flight.
pub mod Exits
pub mod Dropped
use namespace_lister.Base.{
  ℕ, suc, String, Bool, true, false, Option, none, some, ◌≡◌, ◌≢◌, if◌then◌else◌, ◌&&◌,
}

-- `main`: the code with which the process ends when `run` returns.
unfoldable pub exit_code : Option String → ℕ
exit_code none = 0
exit_code (some err) = 1

-- Where `run` is: in `ListenAndServe` or `ListenAndServeTLS`, with the error that it returned in hand,
-- or back in `main` with it, its deferred `cancel` done.
pub data Main : Type 0 where
  listening : Main
  returning returned : Option String → Main

-- The goroutine of `Start` of the API server: before the end of the context, in `Shutdown`, or done.
pub data Shutdown : Type 0 where
  waiting shutting done : Shutdown

-- `exited` is the code of `os.Exit` once it is called, or 2 for a goroutine that panicked.
pub record Process : Type 0 where
  pub cancelled : Bool
  pub main : Main
  pub shutdown : Shutdown
  pub metrics_running : Bool
  pub cache_running : Bool
  pub in_flight : ℕ
  pub exited : Option ℕ

abbrev pub server_closed : String
server_closed = "http: Server closed"

pub data Step (p : Process) : Process → Type 0 where
  -- SIGINT or SIGTERM arrives: `signal.NotifyContext` cancels the context
  signal : Step p (record p { cancelled = true })
  -- the metrics server ends, with or without an error: its goroutine has deferred `cancel`
  metrics_ended :
      p.metrics_running ≡ true → Step p (record p { metrics_running = false; cancelled = true })
  -- `Start` of the resource cache returns: without an error at the end of the context, or with one,
  -- on which its goroutine panics
  cache_ended :
      p.cache_running ≡ true → p.cancelled ≡ true → Step p (record p { cache_running = false })
  cache_panicked : String → p.cache_running ≡ true → Step p (record p { exited = some 2 })
  -- a request arrives, or is answered
  arrived :
      p.main ≡ listening → p.shutdown ≡ waiting → Step p (record p { in_flight = suc p.in_flight })
  answered : (n : ℕ) → p.in_flight ≡ suc n → Step p (record p { in_flight = n })
  -- the goroutine of `Start` sees the end of the context and calls `Shutdown`
  shut : p.cancelled ≡ true → p.shutdown ≡ waiting → Step p (record p { shutdown = shutting })
  drained : p.shutdown ≡ shutting → p.in_flight ≡ 0 → Step p (record p { shutdown = done })
  -- `Shutdown` fails, by its timeout or otherwise: `os.Exit(1)`
  shutdown_failed : String → p.shutdown ≡ shutting → Step p (record p { exited = some 1 })
  -- the listener fails
  listen_failed :
      (err : String) → p.main ≡ listening → Step p (record p { main = returning (some err) })
  -- it returns because the server shuts down
  closed :
      p.main ≡ listening
      → p.shutdown ≢ waiting
      → Step p (record p { main = returning (some server_closed) })
  -- `run` returns what `Start` returned, after its deferred `cancel`
  run_returned :
      (err : Option String)
      → p.main ≡ returning err
      → Step p (record p { main = returned err; cancelled = true })
  -- `main` ends the process
  main_ended :
      (err : Option String)
      → p.main ≡ returned err
      → Step p (record p { exited = some (exit_code err) })

-- `Start` is called, with or without a metrics server, when a signal may have come already.
abbrev pub serving : (enable_metrics signalled : Bool) → Process
serving enable_metrics signalled = record {
  cancelled = signalled;
  main = listening;
  shutdown = waiting;
  metrics_running = enable_metrics;
  cache_running = true;
  in_flight = 0;
  exited = none;
}

-- What can be reached: nothing happens once the process has ended.
pub data Reach (p : Process) : Process → Type 0 where
  here : Reach p p
  next : {q r : Process} → Reach p q → q.exited ≡ none → Step q r → Reach p r

-- Neither the listener nor `Shutdown` nor the resource cache fails.
abbrev pub is_orderly : {p q : Process} → Reach p q → Bool
is_orderly here = true
is_orderly (next h e (shutdown_failed err s)) = false
is_orderly (next h e (listen_failed err s)) = false
is_orderly (next h e (cache_panicked err s)) = false
is_orderly (next h e (cache_ended s t)) = is_orderly h
is_orderly (next h e signal) = is_orderly h
is_orderly (next h e (metrics_ended s)) = is_orderly h
is_orderly (next h e (arrived s t)) = is_orderly h
is_orderly (next h e (answered n s)) = is_orderly h
is_orderly (next h e (shut s t)) = is_orderly h
is_orderly (next h e (drained s t)) = is_orderly h
is_orderly (next h e (closed s t)) = is_orderly h
is_orderly (next h e (run_returned err s)) = is_orderly h
is_orderly (next h e (main_ended err s)) = is_orderly h
