-- ===== src/Scheduler/Requests.antt =====
-- What becomes of a request, and which errors reach the handler.
use namespace_lister.Scheduler.Exclusion.{IsExclusive, Reach-IsExclusive}
use namespace_lister.Base.{
  suc, ap, length, Bool-cases, ◌↔◌, ℕ, ◌≡◌, ◌≢◌, ◌⊎◌, inl, inr, refl, true, false, List, [], arith,
  All,
}
use namespace_lister.Synch.{Error, synch_already_running}
use namespace_lister.Scheduler.{
  request, receive, enter, leave, waiting, calling, running, stopped, idle, busy, State, report,
  is_synch_already_running_err, start, Step, cancel, event, tick, tick_stop, take, work, refused,
  worked, work_stop, call, call_refused, called, Reach, here, next,
}

-- A request that no run has been started for is still in the channel or in the hands of the worker,
-- unless the worker has left or a call of its was refused.
abbrev pub IsKept : State → Type 0
IsKept s =
    s.pending ≡ true
    → (s.shared.requested ≡ true)
      ⊎ ((s.worker ≡ calling) ⊎ ((s.worker ≡ stopped) ⊎ (s.handled ≢ [])))

Step-IsKept : {s t : State} → Step s t → IsKept s → IsKept t
unfolding request receive enter leave report is_synch_already_running_err
Step-IsKept cancel x p = x p
Step-IsKept event x p = inl (ground arith)
Step-IsKept (tick h) x p = inl (ground arith)
Step-IsKept (tick_stop h) x p = x p
Step-IsKept (take h k) x p = inr (inl refl)
Step-IsKept (work h k) x p = cc
Step-IsKept (refused h k) x p = inr (inr (inr cc))
Step-IsKept (worked err k h) x p = ground arith
Step-IsKept (work_stop h k) x p = ground arith
Step-IsKept (call i h k) x p = cc
Step-IsKept (call_refused i h k) x p = x p
Step-IsKept (called i h) x p = x p

start-IsKept : IsKept start
unfolding start
start-IsKept p = cc

-- No request is lost without a trace: in every state that can be reached, a request made after the
-- last start of a run is in the channel, or the worker is about to start a run for it, unless the
-- worker has left at the end of the context, or a call of the worker was refused.
pub Reach-IsKept : {s : State} → Reach s → IsKept s
Reach-IsKept here = start-IsKept
Reach-IsKept (next r st) = Step-IsKept st (Reach-IsKept r)

abbrev pub OnlyRefusals : List Error → Type 0
OnlyRefusals = All (λ err. err ≡ synch_already_running)

Step-OnlyRefusals : {s t : State} → Step s t → OnlyRefusals s.handled → OnlyRefusals t.handled
unfolding report is_synch_already_running_err
Step-OnlyRefusals (refused h k) x = (refl, x)
Step-OnlyRefusals (worked err (inl e) h) x = ground arith
Step-OnlyRefusals (worked err (inr (m, e)) h) x = ground arith
Step-OnlyRefusals cancel x = x
Step-OnlyRefusals event x = x
Step-OnlyRefusals (tick h) x = x
Step-OnlyRefusals (tick_stop h) x = x
Step-OnlyRefusals (take h k) x = x
Step-OnlyRefusals (work h k) x = x
Step-OnlyRefusals (work_stop h k) x = x
Step-OnlyRefusals (call i h k) x = x
Step-OnlyRefusals (call_refused i h k) x = x
Step-OnlyRefusals (called i h) x = x

Reach-all_refusals : {s : State} → Reach s → OnlyRefusals s.handled
unfolding start
Reach-all_refusals here = tt
Reach-all_refusals (next r st) = Step-OnlyRefusals st (Reach-all_refusals r)

-- The calls of the worker that were refused on the way to a state.
abbrev pub refusals_of : {s : State} → Reach s → ℕ
refusals_of here = 0
refusals_of (next r (refused h k)) = suc (refusals_of r)
refusals_of (next r cancel) = refusals_of r
refusals_of (next r event) = refusals_of r
refusals_of (next r (tick h)) = refusals_of r
refusals_of (next r (tick_stop h)) = refusals_of r
refusals_of (next r (take h k)) = refusals_of r
refusals_of (next r (work h k)) = refusals_of r
refusals_of (next r (worked err x h)) = refusals_of r
refusals_of (next r (work_stop h k)) = refusals_of r
refusals_of (next r (call i h k)) = refusals_of r
refusals_of (next r (call_refused i h k)) = refusals_of r
refusals_of (next r (called i h)) = refusals_of r

length-handled : {s : State} (r : Reach s) → length s.handled ≡ refusals_of r
unfolding start report is_synch_already_running_err
length-handled here = refl
length-handled (next r (refused h k)) = ap suc (length-handled r)
length-handled (next r (worked err (inl e) h)) = rw e (length-handled r)
length-handled (next r (worked err (inr (m, e)) h)) = rw e (length-handled r)
length-handled (next r cancel) = length-handled r
length-handled (next r event) = length-handled r
length-handled (next r (tick h)) = length-handled r
length-handled (next r (tick_stop h)) = length-handled r
length-handled (next r (take h k)) = length-handled r
length-handled (next r (work h k)) = length-handled r
length-handled (next r (work_stop h k)) = length-handled r
length-handled (next r (call i h k)) = length-handled r
length-handled (next r (call_refused i h k)) = length-handled r
length-handled (next r (called i h)) = length-handled r

-- The error handler is given a refusal for each call of the worker that was refused, and nothing else:
-- no error of a run of `synch` ever reaches it.
pub Reach-OnlyRefusals :
    {s : State} (r : Reach s) → OnlyRefusals s.handled × (length s.handled ≡ refusals_of r)
Reach-OnlyRefusals r = (Reach-all_refusals r, length-handled r)

-- A call of `Synch` is refused exactly while somebody is inside `synch`: in every state that can be
-- reached, the worker with a run of its own or another caller. So the call of the start is refused
-- where the worker got ahead of it, and a call of the worker, which has taken its request by then,
-- where another caller is inside.
pub enter_refused_iff :
    {s : State}
    → Reach s
    → ((enter s.shared).1 ≡ false) ↔ ((s.worker ≡ running) ⊎ ((i : ℕ) × (s.callers i ≡ busy)))
unfolding enter
enter_refused_iff {s} r =
    let x = Reach-IsExclusive r in
    (
      λ h. x.taken (ground arith),
      λ inside. elim (Bool-cases s.shared.synchronizing) [
        | inl on ↦ ground arith
        | inr off ↦ elim inside [
          | inl w ↦ absurd ((x.free off).0 w)
          | inr (i, b) ↦ absurd (cc ((x.free off).1 i))
        ]
      ],
    )

-- The worker's call of `Synch` is refused exactly while another caller is inside `synch`.
work_refused_iff :
    {s : State}
    → Reach s
    → s.worker ≡ calling
    → ((enter s.shared).1 ≡ false) ↔ ((i : ℕ) × (s.callers i ≡ busy))
work_refused_iff r w =
    let (to, from) = enter_refused_iff r in
    (λ h. elim (to h) [ inl running_now ↦ absurd (cc) | inr p ↦ p ], λ p. from (inr p))

-- The call of `Synch` with which the program starts is refused exactly if the worker got ahead of it,
-- where nobody else calls `Synch`.
startup_refused_iff :
    {s : State}
    → Reach s
    → ((i : ℕ) → s.callers i ≡ idle)
    → ((enter s.shared).1 ≡ false) ↔ (s.worker ≡ running)
startup_refused_iff r quiet =
    let (to, from) = enter_refused_iff r in
    (λ h. elim (to h) [ inl w ↦ w | inr (i, b) ↦ absurd (cc (quiet i)) ], λ w. from (inl w))

-- A request is served without help: in a state that can be reached, with a request in the channel, the
-- worker at its `select` and no other caller inside `synch`, the worker can take the request and start
-- a run with two steps of its own, and no request is left over then.
Reach-served :
    {s : State}
    → Reach s
    → s.shared.requested ≡ true
    → s.worker ≡ waiting
    → ((i : ℕ) → s.callers i ≡ idle)
    → (u : State) × (t : State) × Step s u
      × Step u t
      × (t.worker ≡ running)
      × (t.shared.requested ≡ false)
      × (t.pending ≡ false)
unfolding enter receive
Reach-served {s} r asked free quiet =
    let u : State = record s { shared = receive s.shared; worker = calling } in
    let open_now : s.shared.synchronizing ≡ false = elim (Bool-cases s.shared.synchronizing) [
      | inr off ↦ off
      | inl on ↦ elim (x.taken on) [ inl w ↦ absurd (cc) | inr (i, b) ↦ absurd (cc (quiet i)) ]
    ] in
    (
      u,
      record u { shared = (enter u.shared).0; worker = running; pending = false },
      take free asked,
      work refl (ground arith),
      refl,
      ground arith,
      refl,
    )
  where
    x : IsExclusive s
    x = Reach-IsExclusive r
