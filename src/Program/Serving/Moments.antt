-- ===== src/Program/Serving/Moments.antt =====
-- What holds of the resources at each moment of a run of the program.
use namespace_lister.Program.{
  Program, Step, background, calls, synched, synch_failed, Reach, here, next,
}
use namespace_lister.Program.Serving.{Reach-Reaches}
use namespace_lister.System.{Resources, Machine, Reaches}
use namespace_lister.System.Granted.{Held, now, earlier}

-- A property of the resources of every state on the way.
AtEachMove : {r : Resources} {m : Machine} → (Resources → Type 0) → Reaches r m → Type 0
AtEachMove {r} q Reaches.here = q r
AtEachMove {m = m} q (Reaches.next h e) = AtEachMove q h × q m.resources

abbrev pub AtEachStep : {r : Resources} {p : Program} → (Resources → Type 0) → Reach r p → Type 0
AtEachStep {r} q here = q r
AtEachStep {p = p} q (next h e) = AtEachStep q h × q p.machine.resources

AtEachMove-Held :
    {r : Resources} {m : Machine} {past : Resources} (q : Resources → Type 0) {h : Reaches r m}
    → Held m h past
    → AtEachMove q h
    → q past
unfolding AtEachMove
AtEachMove-Held q (now Reaches.here) all = all
AtEachMove-Held q (now (Reaches.next h e)) all = all.1
AtEachMove-Held q (earlier e was) all = AtEachMove-Held q was all.0

AtEachStep-Reaches :
    {r : Resources} {p : Program} (q : Resources → Type 0) (h : Reach r p)
    → AtEachStep q h
    → AtEachMove q (Reach-Reaches h)
unfolding AtEachMove Reach-Reaches
AtEachStep-Reaches q here all = all
AtEachStep-Reaches q (next h (background phase e k)) (all, last) =
    (AtEachStep-Reaches q h all, last)
AtEachStep-Reaches q (next h (calls e i b)) (all, last) = (AtEachStep-Reaches q h all, last)
AtEachStep-Reaches q (next h (Step.refused k)) (all, last) = AtEachStep-Reaches q h all
AtEachStep-Reaches q (next h (synched e b i done)) (all, last) = (AtEachStep-Reaches q h all, last)
AtEachStep-Reaches q (next h (synch_failed e b i k)) (all, last) =
    (AtEachStep-Reaches q h all, last)

pub AtEachStep-Held :
    {r : Resources} {p : Program} (q : Resources → Type 0) (h : Reach r p) (past : Resources)
    → Held p.machine (Reach-Reaches h) past
    → AtEachStep q h
    → q past
AtEachStep-Held q h past was all = AtEachMove-Held q was (AtEachStep-Reaches q h all)
