-- ===== src/System/CatchUp.antt =====
-- The access cache can always catch up with the resource cache.
use namespace_lister.Base.{
  ◌≡◌, ◌≢◌, refl, ◌∙◌, ◌⊎◌, inl, inr, true, false, Option, some, elements, arith,
}
use namespace_lister.Kube.{Subject, subject_eq}
use namespace_lister.Synch.{Error, AccessData, slice_at}
use namespace_lister.Synch.Content.{accessible, synch-accessible}
use namespace_lister.Scheduler.{
  State, Worker, waiting, calling, running, stopped, start, request, receive, enter, leave, Step,
  Reach,
}
use namespace_lister.Scheduler.Exclusion.{Reach-IsExclusive}
use namespace_lister.System.{
  Resources, environment, Phase, outside, listing, rounds, Machine, work, Ends, worked, called,
  requesting, Move, change, deliver, tick, elsewhere, take, begin, list_failed, list_done,
  interrupted, round, restocked, Reaches, here, next, Moves, stay, move,
}
use namespace_lister.System.Courses.{is_unaided, Only, Only-append, Only-Moves, Only-unaided}
use namespace_lister.System.Ending.{ended, phase-Only, Reaches-Ends}
use namespace_lister.System.Fresh.{Reaches-Reach, synchronizing-request, synchronizing-Elsewhere}
use namespace_lister.System.Runs.{world_of, listing-Only}

-- Both goroutines of `Start` are there until the context ends.
IsRunning : State → Type 0
IsRunning s = s.cancelled ≡ false → (s.ticking ≡ true) × (s.worker ≢ stopped)

Step-IsRunning : {s t : State} → Step s t → IsRunning s → IsRunning t
unfolding IsRunning
Step-IsRunning Step.cancel h live = absurd (cc)
Step-IsRunning Step.event h live = h live
Step-IsRunning (Step.tick e) h live = h live
Step-IsRunning (Step.tick_stop e) h live = absurd (cc)
Step-IsRunning (Step.take e f) h live = ((h live).0, λ z. cc)
Step-IsRunning (Step.work e f) h live = ((h live).0, λ z. cc)
Step-IsRunning (Step.refused e f) h live = ((h live).0, λ z. cc)
Step-IsRunning (Step.worked err x e) h live = ((h live).0, λ z. cc)
Step-IsRunning (Step.work_stop e f) h live = absurd (cc)
Step-IsRunning (Step.call i e f) h live = h live
Step-IsRunning (Step.call_refused i e f) h live = h live
Step-IsRunning (Step.called i e) h live = h live

Reach-IsRunning : {s : State} → Reach s → IsRunning s
unfolding IsRunning start
Reach-IsRunning Reach.here = λ live. (refl, λ z. cc)
Reach-IsRunning (Reach.next h e) = Step-IsRunning e (Reach-IsRunning h)

-- Nobody is inside `synch` while no run is in progress.
IsOpen : Machine → Type 0
IsOpen m = m.phase ≡ outside → m.sched.shared.synchronizing ≡ false

synchronizing-Ends :
    {s : State} {err : Option Error} {t : State} → Ends s err t → t.shared.synchronizing ≡ false
unfolding leave
synchronizing-Ends (worked h) = refl
synchronizing-Ends (called i h) = refl

Move-IsOpen : {m n : Machine} → Move m n → IsOpen m → IsOpen n
unfolding IsOpen
Move-IsOpen (change r) h o = h o
Move-IsOpen {m} (deliver k e) h o = synchronizing-request m.sched ∙ h o
Move-IsOpen {m} (tick e) h o = synchronizing-request m.sched ∙ h o
Move-IsOpen (elsewhere e) h o = synchronizing-Elsewhere e ∙ h o
Move-IsOpen (begin e) h o = absurd (cc)
Move-IsOpen (list_failed e f g) h o = synchronizing-Ends g
Move-IsOpen (interrupted e ns nn c f g) h o = synchronizing-Ends g
Move-IsOpen (list_done e) h o = absurd (cc)
Move-IsOpen (round ns nn c e w) h o = absurd (cc)
Move-IsOpen (restocked c e g) h o = synchronizing-Ends g

Reaches-IsOpen : {r : Resources} {m : Machine} → Reaches r m → IsOpen m
unfolding IsOpen start
Reaches-IsOpen here = λ o. refl
Reaches-IsOpen (next h e) = Move-IsOpen e (Reaches-IsOpen h)

pub Reaches-Moves : {r : Resources} {m n : Machine} → Reaches r m → Moves m n → Reaches r n
Reaches-Moves h stay = h
Reaches-Moves h (move e k) = Reaches-Moves (next h e) k

-- The cache holds, under each subject, what the subject may get by these resources.
abbrev pub IsUpToDate : Resources → Machine → Type 0
IsUpToDate r n =
    (c : AccessData) × (n.cache.cached ≡ some c)
    × ((s : Subject) → elements (slice_at s c) ≡ accessible (environment r) s r.stored)

-- A machine that moves of the goroutines of `Start` and of the run in progress alone bring up to date
-- with its resources.
abbrev pub CatchesUp : Machine → Type 0
CatchesUp m = (n : Machine) × Only is_unaided m n × IsUpToDate m.resources n

calling-CatchesUp :
    (m : Machine) → m.sched.worker ≡ calling → (enter m.sched.shared).1 ≡ true → CatchesUp m
calling-CatchesUp m called_now open_now =
    let w = world_of m in
    let env = environment m.resources in
    let (c, _, _, cached, same) = synch-accessible env w refl (λ i. refl) in
    (
      _,
      Only.move (begin (work called_now open_now)) refl
          (Only-unaided (listing-Only m _ _ (worked refl))),
      (c, cached, same),
    )

enter_open : (s : State) → s.shared.synchronizing ≡ false → (enter s.shared).1 ≡ true
unfolding enter
enter_open s o = ground arith

requested_now : (s : State) → (request s.shared).0.requested ≡ true
unfolding request
requested_now s = ground arith

waiting-CatchesUp :
    (m : Machine)
    → m.sched.worker ≡ waiting
    → m.sched.ticking ≡ true
    → m.sched.shared.synchronizing ≡ false
    → CatchesUp m
unfolding receive
waiting-CatchesUp m w t o =
    let asked : State = requesting m.sched in
    let m₂ : Machine = record m {
      sched = record asked { shared = receive asked.shared; worker = calling };
    } in
    let (n, moves, up_to_date) =
      calling-CatchesUp m₂ refl (enter_open m₂.sched (synchronizing-request m.sched ∙ o)) in
    (
      n,
      Only.move (tick t) refl (Only.move (elsewhere (take w (requested_now m.sched))) refl moves),
      up_to_date,
    )

worker-CatchesUp :
    (w : Worker) (m : Machine)
    → m.sched.worker ≡ w
    → w ≢ running
    → w ≢ stopped
    → m.sched.ticking ≡ true
    → m.sched.shared.synchronizing ≡ false
    → CatchesUp m
worker-CatchesUp waiting m e f g t o = waiting-CatchesUp m e t o
worker-CatchesUp calling m e f g t o = calling-CatchesUp m e (enter_open m.sched o)
worker-CatchesUp running m e f g t o = absurd (f refl)
worker-CatchesUp stopped m e f g t o = absurd (g refl)

-- With no run in progress.
outside-CatchesUp :
    {r : Resources} {m : Machine}
    → Reaches r m
    → m.phase ≡ outside
    → m.sched.cancelled ≡ false
    → CatchesUp m
unfolding IsOpen IsRunning
outside-CatchesUp {m = m} h e live =
    let o : m.sched.shared.synchronizing ≡ false = Reaches-IsOpen h e in
    let (ticks, going) = Reach-IsRunning (Reaches-Reach h) live in
    let free = ((Reach-IsExclusive (Reaches-Reach h)).free o).0 in
    worker-CatchesUp m.sched.worker m refl free going ticks o

cancelled-Ends :
    {s : State} {err : Option Error} {t : State} → Ends s err t → t.cancelled ≡ s.cancelled
cancelled-Ends (worked h) = refl
cancelled-Ends (called i h) = refl

Phase-cases : (p : Phase) → (p ≡ outside) ⊎ (p ≢ outside)
Phase-cases outside = inl refl
Phase-cases listing = inr (λ e. cc)
Phase-cases (rounds nn c) = inr (λ e. cc)

-- The access cache can always catch up. From every state that can be reached before the context is
-- cancelled, whatever run is in progress and whatever requests were lost, the run in progress, the
-- timer and the worker by themselves lead to a state in which the cache holds data, and under each
-- subject exactly what the subject may get by the roles, the bindings and the namespaces of the first
-- state.
pub Reaches-CatchesUp :
    {r : Resources} {m : Machine} → Reaches r m → m.sched.cancelled ≡ false → CatchesUp m
Reaches-CatchesUp {m = m} h live = elim (Phase-cases m.phase) [
  | inl e ↦ outside-CatchesUp h e live
  | inr going ↦
      let (t, f) = Reaches-Ends h going in
      let (c, moves) = phase-Only m.phase m t refl going f in
      let (n, more, up_to_date) =
        outside-CatchesUp {m = ended m t c} (Reaches-Moves h (Only-Moves moves)) refl
          (cancelled-Ends f ∙ live) in
      (n, Only-append (Only-unaided moves) more, up_to_date)
]
