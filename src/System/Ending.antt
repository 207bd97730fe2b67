-- ===== src/System/Ending.antt =====
-- The loop of `synch` comes to an end.
use namespace_lister.Base.{
  ℕ, suc, ◌+◌, ◌≡◌, ◌≢◌, refl, inl, inr, true, none, List, [], ◌∷◌, length, Bool-cases,
}
use namespace_lister.AccessCache.{restock}
use namespace_lister.Kube.{Namespace}
use namespace_lister.Synch.{AccessData}
use namespace_lister.Scheduler.{State}
use namespace_lister.Scheduler.Exclusion.{Reach-IsExclusive}
use namespace_lister.System.Courses.{is_of_run, Only}
use namespace_lister.System.{
  Resources, Phase, outside, listing, rounds, Machine, Ends, worked, called, change, deliver, tick,
  elsewhere, begin, list_failed, list_done, interrupted, round, restocked, Reaches, here, next,
  after_round,
}
use namespace_lister.System.Fresh.{Reaches-Reach, Reaches-IsGuarded, IsGuarded}
use namespace_lister.System.Runs.{Relabelled-refl}

-- The rounds that a run still has to do.
abbrev pub left : Phase → ℕ
left outside = 0
left listing = 0
left (rounds nn c) = length nn

-- The rounds that were done on the way to a state.
abbrev pub rounds_of : {r : Resources} {m : Machine} → Reaches r m → ℕ
rounds_of here = 0
rounds_of (next h (round ns nn c e w)) = suc (rounds_of h)
rounds_of (next h (change r)) = rounds_of h
rounds_of (next h (deliver k e)) = rounds_of h
rounds_of (next h (tick e)) = rounds_of h
rounds_of (next h (elsewhere e)) = rounds_of h
rounds_of (next h (begin e)) = rounds_of h
rounds_of (next h (list_failed e f g)) = rounds_of h
rounds_of (next h (list_done e)) = rounds_of h
rounds_of (next h (interrupted e ns nn c f g)) = rounds_of h
rounds_of (next h (restocked c e g)) = rounds_of h

-- The namespaces that runs listed on the way to a state, all lists together.
abbrev pub listed_of : {r : Resources} {m : Machine} → Reaches r m → ℕ
listed_of here = 0
listed_of (next {m} h (list_done e)) = listed_of h + length m.resources.stored
listed_of (next h (round ns nn c e w)) = listed_of h
listed_of (next h (change r)) = listed_of h
listed_of (next h (deliver k e)) = listed_of h
listed_of (next h (tick e)) = listed_of h
listed_of (next h (elsewhere e)) = listed_of h
listed_of (next h (begin e)) = listed_of h
listed_of (next h (list_failed e f g)) = listed_of h
listed_of (next h (interrupted e ns nn c f g)) = listed_of h
listed_of (next h (restocked c e g)) = listed_of h

-- A machine from which the run in progress is completed by moves of its own.
abbrev pub CanEnd : Machine → Type 0
CanEnd m = (n : Machine) × Only is_of_run m n × (n.phase ≡ outside) × (n.completed ≡ true)

-- The machine when the run in progress has stored its data and the others have done nothing.
abbrev pub ended : Machine → State → AccessData → Machine
ended m t c = record m { sched = t; phase = outside; cache = restock c m.cache; completed = true }

loop-Only :
    (nn : List Namespace) (c : AccessData) (m : Machine) (t : State)
    → m.phase ≡ rounds nn c
    → Ends m.sched none t
    → (c' : AccessData) × Only is_of_run m (ended m t c')
loop-Only [] c m t e f = (c, Only.move (restocked c e f) refl Only.stay)
loop-Only (ns ∷ nn) c m t e f =
    let w = Relabelled-refl m.resources.stored in
    let (c', moves) =
      loop-Only nn (after_round m.resources ns c)
        (record m { phase = rounds nn (after_round m.resources ns c) }) t refl f in
    (c', Only.move (round ns nn c e w) refl moves)

-- A run that nothing disturbs gets to its end from wherever it is.
pub phase-Only :
    (p : Phase) (m : Machine) (t : State)
    → m.phase ≡ p
    → p ≢ outside
    → Ends m.sched none t
    → (c : AccessData) × Only is_of_run m (ended m t c)
phase-Only outside m t e going f = absurd (going refl)
phase-Only listing m t e going f =
    let (c, moves) =
      loop-Only m.resources.stored [] (record m { phase = rounds m.resources.stored [] }) t refl
        f in
    (c, Only.move (list_done e) refl moves)
phase-Only (rounds nn c) m t e going f = loop-Only nn c m t e f

-- Whoever is inside `synch` can return.
pub Reaches-Ends :
    {r : Resources} {m : Machine}
    → Reaches r m
    → m.phase ≢ outside
    → (t : State) × Ends m.sched none t
unfolding IsGuarded
Reaches-Ends {r} {m} h going = elim (Bool-cases m.sched.shared.synchronizing) [
  | inr off ↦ absurd (going (Reaches-IsGuarded h off))
  | inl on ↦ elim ((Reach-IsExclusive (Reaches-Reach h)).taken on) [
    | inl w ↦ (_, worked w)
    | inr (i, b) ↦ (_, called i b)
  ]
]
