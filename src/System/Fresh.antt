-- ===== src/System/Fresh.antt =====
-- When the access cache is up to date with the resource cache.
use mathlib.Core.List.{append-nil}
use namespace_lister.Base.{
  ℕ, ◌≡◌, ◌≢◌, refl, sym, subst, ◌∙◌, ◌⊎◌, inl, inr, String, true, false, Option, none, some, ◌++◌,
  arith, elements, Bool-cases,
}
use namespace_lister.Base.Dict.{lookup}
use namespace_lister.AccessCache.{restock, new_atomic_list_restock_cache}
use namespace_lister.Kube.{Subject, subject_eq}
use namespace_lister.Synch.{
  AccessData, Error, other, slice_at, new_atomic_list_restock_access_cache,
}
use namespace_lister.Synch.Content.{accessible, store_access-accessible}
use namespace_lister.Scheduler.{State, Step, Reach, request, receive, enter, running, idle}
use namespace_lister.Scheduler.Exclusion.{Reach-IsExclusive}
use namespace_lister.System.Relabelling.{accessible-Relabelled}
use namespace_lister.System.{
  Resources, environment, Phase, outside, listing, rounds, Machine, Starts, work, call, Ends,
  worked, called, Elsewhere, cancel, tick_stop, take, refused, work_stop, call_refused, after_round,
  Move, change, deliver, tick, elsewhere, begin, list_failed, list_done, interrupted, round,
  restocked, Reaches, here, next,
}

-- The cache holds, under each subject, what the subject may get by the resources of the moment.
abbrev pub IsFresh : Machine → Type 0
IsFresh m =
    (c : AccessData) × (m.cache.cached ≡ some c)
    × ((s : Subject)
        → elements (slice_at s c) ≡ accessible (environment m.resources) s m.resources.stored)

-- What the data of a run will amount to.
abbrev OnTrack : Machine → Phase → Type 0
OnTrack m outside = m.completed ≡ true → IsFresh m
OnTrack m listing = Unit
OnTrack m (rounds nn c) =
    (s : Subject)
    → elements (slice_at s c) ++ accessible (environment m.resources) s nn
      ≡ accessible (environment m.resources) s m.resources.stored

-- With no event on its way and no request since the last start of a run, the data is on track.
IsTracked : Machine → Type 0
IsTracked m = m.undelivered ≡ 0 → m.sched.pending ≡ false → OnTrack m m.phase

pending-Elsewhere : {s t : State} → Elsewhere s t → t.pending ≡ s.pending
pending-Elsewhere cancel = refl
pending-Elsewhere (tick_stop h) = refl
pending-Elsewhere (take h k) = refl
pending-Elsewhere (refused h k) = refl
pending-Elsewhere (work_stop h k) = refl
pending-Elsewhere (call_refused i h k) = refl

pending-Ends : {s : State} {err : Option Error} {t : State} → Ends s err t → t.pending ≡ s.pending
pending-Ends (worked h) = refl
pending-Ends (called i h) = refl

Move-IsTracked : {m n : Machine} → Move m n → IsTracked m → IsTracked n
unfolding IsTracked after_round slice_at lookup restock accessible
Move-IsTracked (change r) h u p = absurd (omega arith)
Move-IsTracked (deliver k e) h u p = absurd (cc)
Move-IsTracked (tick e) h u p = absurd (cc)
Move-IsTracked (elsewhere e) h u p = h u (sym (pending-Elsewhere e) ∙ p)
Move-IsTracked (begin e) h u p = tt
Move-IsTracked (list_failed e f g) h u p = λ c. absurd (cc)
Move-IsTracked (interrupted e ns nn c f g) h u p = λ c. absurd (cc)
Move-IsTracked (list_done e) h u p = λ s. refl
Move-IsTracked {m} (round ns nn c e w) h u p = λ s.
    store_access-accessible (environment m.resources) ns nn c s
    ∙ subst (OnTrack m) e (h u p) s
    ∙ sym (accessible-Relabelled (environment m.resources) s w)
Move-IsTracked {m} (restocked c e g) h u p =
    λ z. (c, refl, λ s. sym (append-nil _) ∙ subst (OnTrack m) e (h u (sym (pending-Ends g) ∙ p)) s)

Reaches-IsTracked : {r : Resources} {m : Machine} → Reaches r m → IsTracked m
unfolding IsTracked
Reaches-IsTracked here = λ u p e. absurd (cc)
Reaches-IsTracked (next r e) = Move-IsTracked e (Reaches-IsTracked r)

Elsewhere-Step : {s t : State} → Elsewhere s t → Step s t
Elsewhere-Step cancel = Step.cancel
Elsewhere-Step (tick_stop h) = Step.tick_stop h
Elsewhere-Step (take h k) = Step.take h k
Elsewhere-Step (refused h k) = Step.refused h k
Elsewhere-Step (work_stop h k) = Step.work_stop h k
Elsewhere-Step (call_refused i h k) = Step.call_refused i h k

Starts-Step : {s t : State} → Starts s t → Step s t
Starts-Step (work h k) = Step.work h k
Starts-Step (call i h k) = Step.call i h k

Ends-Step :
    {s : State} {err : Option Error} {t : State}
    → err ≡ none ⊎ ((e : String) × (err ≡ some (other e)))
    → Ends s err t
    → Step s t
Ends-Step {err = err} x (worked h) = Step.worked err x h
Ends-Step x (called i h) = Step.called i h

-- Without the data, the goroutines do what Scheduler says.
pub Reaches-Reach : {r : Resources} {m : Machine} → Reaches r m → Reach m.sched
Reaches-Reach here = Reach.here
Reaches-Reach (next r (change e)) = Reaches-Reach r
Reaches-Reach (next r (deliver k e)) = Reach.next (Reaches-Reach r) Step.event
Reaches-Reach (next r (tick e)) = Reach.next (Reaches-Reach r) (Step.tick e)
Reaches-Reach (next r (elsewhere e)) = Reach.next (Reaches-Reach r) (Elsewhere-Step e)
Reaches-Reach (next r (begin e)) = Reach.next (Reaches-Reach r) (Starts-Step e)
Reaches-Reach (next r (list_failed e f g)) =
    Reach.next (Reaches-Reach r) (Ends-Step (inr (e, refl)) g)
Reaches-Reach (next r (interrupted e ns nn c f g)) =
    Reach.next (Reaches-Reach r) (Ends-Step (inr (e, refl)) g)
Reaches-Reach (next r (list_done e)) = Reaches-Reach r
Reaches-Reach (next r (round ns nn c e w)) = Reaches-Reach r
Reaches-Reach (next r (restocked c e g)) = Reach.next (Reaches-Reach r) (Ends-Step (inl refl) g)

-- A run in progress holds the flag `synchronizing`.
unfoldable pub IsGuarded : Machine → Type 0
IsGuarded m = m.sched.shared.synchronizing ≡ false → m.phase ≡ outside

pub synchronizing-Elsewhere :
    {s t : State} → Elsewhere s t → t.shared.synchronizing ≡ s.shared.synchronizing
unfolding receive
synchronizing-Elsewhere cancel = refl
synchronizing-Elsewhere (tick_stop h) = refl
synchronizing-Elsewhere (take h k) = refl
synchronizing-Elsewhere (refused h k) = refl
synchronizing-Elsewhere (work_stop h k) = refl
synchronizing-Elsewhere (call_refused i h k) = refl

synchronizing-Starts : {s t : State} → Starts s t → t.shared.synchronizing ≡ true
unfolding enter
synchronizing-Starts (work h k) = ground arith
synchronizing-Starts (call i h k) = ground arith

pub synchronizing-request :
    (s : State) → (request s.shared).0.synchronizing ≡ s.shared.synchronizing
unfolding request
synchronizing-request s = ground arith

Move-IsGuarded : {m n : Machine} → Move m n → IsGuarded m → IsGuarded n
unfolding IsGuarded
Move-IsGuarded (change r) h f = h f
Move-IsGuarded {m} (deliver k e) h f = h (sym (synchronizing-request m.sched) ∙ f)
Move-IsGuarded {m} (tick e) h f = h (sym (synchronizing-request m.sched) ∙ f)
Move-IsGuarded (elsewhere e) h f = h (sym (synchronizing-Elsewhere e) ∙ f)
Move-IsGuarded (begin e) h f = absurd (cc (synchronizing-Starts e))
Move-IsGuarded (list_failed e g k) h f = refl
Move-IsGuarded (interrupted e ns nn c g k) h f = refl
Move-IsGuarded (list_done e) h f = absurd (cc (h f))
Move-IsGuarded (round ns nn c e w) h f = absurd (cc (h f))
Move-IsGuarded (restocked c e g) h f = refl

pub Reaches-IsGuarded : {r : Resources} {m : Machine} → Reaches r m → IsGuarded m
unfolding IsGuarded
Reaches-IsGuarded here = λ f. refl
Reaches-IsGuarded (next r e) = Move-IsGuarded e (Reaches-IsGuarded r)

-- Once it is quiet the cache is up to date. In every state that can be reached, with no event on its
-- way, no request made since the last start of a run, neither the worker nor another caller inside
-- `synch`, and the last run completed, the cache holds data, and under each subject exactly what the
-- subject may get by the roles, the bindings and the namespaces of the moment, though these changed at
-- any time, and the rounds of the runs wrote labels to the stored namespaces.
pub Reaches-IsFresh :
    {r : Resources} {m : Machine}
    → Reaches r m
    → m.undelivered ≡ 0
    → m.sched.pending ≡ false
    → m.sched.worker ≢ running
    → ((i : ℕ) → m.sched.callers i ≡ idle)
    → m.completed ≡ true
    → IsFresh m
unfolding IsTracked IsGuarded
Reaches-IsFresh {r} {m} reached none_late none_pending free quiet completed =
    subst (OnTrack m) alone (Reaches-IsTracked reached none_late none_pending) completed
  where
    alone : m.phase ≡ outside
    alone = elim (Bool-cases m.sched.shared.synchronizing) [
      | inr off ↦ Reaches-IsGuarded reached off
      | inl on ↦ elim ((Reach-IsExclusive (Reaches-Reach reached)).taken on) [
        | inl w ↦ absurd (free w)
        | inr (i, b) ↦ absurd (cc (quiet i))
      ]
    ]

Move-id_func : {m n : Machine} → Move m n → n.cache.id_func ≡ m.cache.id_func
unfolding restock
Move-id_func (change r) = refl
Move-id_func (deliver k e) = refl
Move-id_func (tick e) = refl
Move-id_func (elsewhere e) = refl
Move-id_func (begin e) = refl
Move-id_func (list_failed e f g) = refl
Move-id_func (interrupted e ns nn c f g) = refl
Move-id_func (list_done e) = refl
Move-id_func (round ns nn c e w) = refl
Move-id_func (restocked c e g) = refl

-- The cache keeps its namespaces apart by their names.
pub Reaches-id_func :
    {r : Resources} {m : Machine} → Reaches r m → m.cache.id_func ≡ (λ ns. ns.meta.name)
unfolding new_atomic_list_restock_access_cache new_atomic_list_restock_cache
Reaches-id_func here = refl
Reaches-id_func (next r e) = Move-id_func e ∙ Reaches-id_func r
