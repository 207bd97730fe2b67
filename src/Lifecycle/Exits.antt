-- ===== src/Lifecycle/Exits.antt =====
-- How the process ends.
use namespace_lister.Base.{
  ℕ, String, Bool, true, false, Option, none, some, ◌≡◌, ◌≢◌, refl, ap, ◌∙◌, ◌⊎◌, inl, inr,
  Bool-cases,
}
use namespace_lister.Lifecycle.{
  exit_code, Main, listening, returning, returned, Shutdown, waiting, shutting, done, Process,
  server_closed, Step, signal, metrics_ended, cache_ended, cache_panicked, arrived, answered, shut,
  drained, shutdown_failed, listen_failed, closed, run_returned, main_ended, serving, Reach, here,
  next,
}

-- The error that `run` returns, or is about to.
abbrev pub error_of : Main → Option String
error_of listening = some ""
error_of (returning err) = err
error_of (returned err) = err

-- The context has ended wherever something relies on it, `run` returns no nil, and no code but 1 is
-- given to `os.Exit`.
record Sound (cancelled cache_running : Bool) (main : Main) (shutdown : Shutdown)
    (exited : Option ℕ) : Type 0 where
  shut_after_cancel : shutdown ≢ waiting → cancelled ≡ true
  returned_after_cancel : (err : Option String) → main ≡ returned err → cancelled ≡ true
  fails : error_of main ≢ none
  exits :
      exited ≡ none
      ⊎ (((exited ≡ some 1) × (cancelled ≡ true)) ⊎ ((exited ≡ some 2) × (cache_running ≡ true)))

abbrev IsSound : Process → Type 0
IsSound p = Sound p.cancelled p.cache_running p.main p.shutdown p.exited

Step-IsSound : {p q : Process} → Step p q → p.exited ≡ none → IsSound p → IsSound q
unfolding exit_code
Step-IsSound signal e s = record {
  shut_after_cancel = λ h. refl;
  returned_after_cancel = λ err h. refl;
  fails = s.fails;
  exits = inl e;
}
Step-IsSound (metrics_ended m) e s = record {
  shut_after_cancel = λ h. refl;
  returned_after_cancel = λ err h. refl;
  fails = s.fails;
  exits = inl e;
}
Step-IsSound (cache_ended m c) e s = record {
  shut_after_cancel = s.shut_after_cancel;
  returned_after_cancel = s.returned_after_cancel;
  fails = s.fails;
  exits = inl e;
}
Step-IsSound (cache_panicked err m) e s = record {
  shut_after_cancel = s.shut_after_cancel;
  returned_after_cancel = s.returned_after_cancel;
  fails = s.fails;
  exits = inr (inr (refl, m));
}
Step-IsSound (arrived m w) e s = s
Step-IsSound (answered n m) e s = s
Step-IsSound (shut c w) e s = record {
  shut_after_cancel = λ h. c;
  returned_after_cancel = s.returned_after_cancel;
  fails = s.fails;
  exits = inl e;
}
Step-IsSound (drained w n) e s = record {
  shut_after_cancel = λ h. s.shut_after_cancel (λ k. cc);
  returned_after_cancel = s.returned_after_cancel;
  fails = s.fails;
  exits = inl e;
}
Step-IsSound (shutdown_failed err w) e s = record {
  shut_after_cancel = s.shut_after_cancel;
  returned_after_cancel = s.returned_after_cancel;
  fails = s.fails;
  exits = inr (inl (refl, s.shut_after_cancel (λ k. cc)));
}
Step-IsSound (listen_failed err m) e s = record {
  shut_after_cancel = s.shut_after_cancel;
  returned_after_cancel = λ x h. cc;
  fails = λ h. cc h;
  exits = inl e;
}
Step-IsSound (closed m w) e s = record {
  shut_after_cancel = s.shut_after_cancel;
  returned_after_cancel = λ x h. cc;
  fails = λ h. cc h;
  exits = inl e;
}
Step-IsSound (run_returned err m) e s = record {
  shut_after_cancel = λ h. refl;
  returned_after_cancel = λ x h. refl;
  fails = λ h. s.fails (ap error_of m ∙ h);
  exits = inl e;
}
Step-IsSound (main_ended none m) e s = absurd (s.fails (ap error_of m))
Step-IsSound (main_ended (some err) m) e s = record {
  shut_after_cancel = s.shut_after_cancel;
  returned_after_cancel = s.returned_after_cancel;
  fails = s.fails;
  exits = inr (inl (refl, s.returned_after_cancel (some err) m));
}

serving-IsSound : (enable_metrics signalled : Bool) → IsSound (serving enable_metrics signalled)
serving-IsSound enable_metrics signalled = record {
  shut_after_cancel = λ h. absurd (h refl);
  returned_after_cancel = λ err h. cc;
  fails = λ h. cc h;
  exits = inl refl;
}

Reach-IsSound :
    {enable_metrics signalled : Bool} {p : Process}
    → Reach (serving enable_metrics signalled) p
    → IsSound p
Reach-IsSound {enable_metrics} {signalled} here = serving-IsSound enable_metrics signalled
Reach-IsSound (next h e s) = Step-IsSound s e (Reach-IsSound h)

-- From `p` the process can be brought to its end, with code 1.
abbrev pub CanExit : Process → Type 0
CanExit p = (q : Process) × Reach p q × (q.exited ≡ some 1)

unwind-CanExit :
    (m : Main) (p : Process)
    → p.main ≡ m
    → p.exited ≡ none
    → error_of m ≢ none
    → p.shutdown ≢ waiting
    → CanExit p
unfolding exit_code
unwind-CanExit (returned none) p k e f w = absurd (f refl)
unwind-CanExit (returned (some err)) p k e f w = (_, next here e (main_ended (some err) k), refl)
unwind-CanExit (returning none) p k e f w = absurd (f refl)
unwind-CanExit (returning (some err)) p k e f w =
    (_, next (next here e (run_returned (some err) k)) e (main_ended (some err) refl), refl)
unwind-CanExit listening p k e f w = (
  _,
  next (next (next here e (closed k w)) e (run_returned (some server_closed) refl)) e
      (main_ended (some server_closed) refl),
  refl,
)

Reach-append : {p q r : Process} → Reach p q → Reach q r → Reach p r
Reach-append h here = h
Reach-append h (next k e s) = next (Reach-append h k) e s

shutdown-CanExit :
    (w : Shutdown) (p : Process)
    → p.shutdown ≡ w
    → p.exited ≡ none
    → p.cancelled ≡ true
    → error_of p.main ≢ none
    → CanExit p
shutdown-CanExit waiting p k e c f =
    let q : Process = record p { shutdown = shutting } in
    let (r, h, o) = unwind-CanExit p.main q refl e f (λ w. cc) in
    (r, Reach-append (next here e (shut c k)) h, o)
shutdown-CanExit shutting p k e c f = unwind-CanExit p.main p refl e f (λ w. cc)
shutdown-CanExit done p k e c f = unwind-CanExit p.main p refl e f (λ w. cc)

-- A process that has not ended, and can be brought to its end once its context has ended, or one that
-- has ended.
abbrev pub Exits : Process → Type 0
Exits p =
    ((p.exited ≡ none) × ((p.cancelled ≡ false) ⊎ CanExit p))
    ⊎ (((p.exited ≡ some 1) × (p.cancelled ≡ true))
        ⊎ ((p.exited ≡ some 2) × (p.cache_running ≡ true)))

-- The process can only end with code 1, and only when its context has ended, or with code 2, while the
-- goroutine of the resource cache runs, which panics on an error; it never ends with code 0. Once the
-- context has ended the process can always be brought to its end, with code 1, whatever requests are
-- in flight.
pub Reach-Exits :
    {enable_metrics signalled : Bool} {p : Process}
    → Reach (serving enable_metrics signalled) p
    → Exits p
Reach-Exits {p} h =
    let s = Reach-IsSound h in
    elim s.exits [
      | inr over ↦ inr over
      | inl e ↦ elim (Bool-cases p.cancelled) [
        | inr live ↦ inl (e, inl live)
        | inl c ↦ inl (e, inr (shutdown-CanExit p.shutdown p refl e c s.fails))
      ]
    ]
