-- ===== src/Program/Serving.antt =====
-- What holds when the program has come up.
pub mod Moments
use text.Mathlib.Text.{starts_with}
use namespace_lister.Base.Text.{occurrences}
use namespace_lister.Base.{
  ℕ, ◌<◌, ◌≡◌, refl, ap, sym, ◌∙◌, ◌↔◌, string_eq, String, true, some, List, ◌∷◌, map, Iteration,
  panic, index_out_of_range, ok, subst, Outcome, Fault, ◌⊎◌, inl, inr, arith,
}
use namespace_lister.AccessCache.{restock}
use namespace_lister.AccessCache.Listing.{list_keys-find_id}
use namespace_lister.Kube.{subject_eq}
use namespace_lister.Synch.{AccessData, NamespaceCache}
use namespace_lister.Lister.{
  group_subject, parse_username, subjects, list_namespaces, new_subject_namespace_lister,
  service_account_prefix,
}
use namespace_lister.Lister.Usernames.{parse_username-panic_iff, parse_username_faults}
use namespace_lister.Scheduler.{State, idle, busy}
use namespace_lister.System.{
  Resources, Machine, Starts, work, call, Elsewhere, cancel, tick_stop, take, refused, work_stop,
  call_refused, Move, change, deliver, tick, elsewhere, begin, list_failed, list_done, interrupted,
  round, restocked, Reaches,
}
use namespace_lister.Program.{
  Phase, started, synching, up, refused_at_start, failed_at_start, Program, Step, background, calls,
  synched, synch_failed, Reach, here, next,
}

abbrev HasData : Machine → Type 0
HasData m = (c : AccessData) × (m.cache.cached ≡ some c)

-- `Restock` never takes data away.
Move-HasData : {m n : Machine} → Move m n → HasData m → HasData n
unfolding restock
Move-HasData (restocked c e f) h = (c, refl)
Move-HasData (change r) h = h
Move-HasData (deliver k e) h = h
Move-HasData (tick e) h = h
Move-HasData (elsewhere e) h = h
Move-HasData (begin e) h = h
Move-HasData (list_failed e f g) h = h
Move-HasData (list_done e) h = h
Move-HasData (interrupted e ns nn c f g) h = h
Move-HasData (round ns nn c e w) h = h

callers-Elsewhere : {s t : State} (i : ℕ) → Elsewhere s t → t.callers i ≡ s.callers i
callers-Elsewhere i cancel = refl
callers-Elsewhere i (tick_stop h) = refl
callers-Elsewhere i (take h k) = refl
callers-Elsewhere i (refused h k) = refl
callers-Elsewhere i (work_stop h k) = refl
callers-Elsewhere i (call_refused j h k) = refl

-- A start of a run makes no caller idle.
Starts-busy : {s t : State} (i : ℕ) → Starts s t → s.callers i ≡ busy → t.callers i ≡ busy
Starts-busy i (work h k) b = b
Starts-busy i (call j h k) b = ground arith

-- The move by which a caller's run ends without an error restocks the cache.
synched-HasData :
    {m n : Machine}
    → Move m n
    → m.sched.callers 0 ≡ busy
    → n.sched.callers 0 ≡ idle
    → n.completed ≡ true
    → HasData n
unfolding restock
synched-HasData (restocked c e f) b i done = (c, refl)
synched-HasData (change r) b i done = absurd (cc)
synched-HasData (deliver k e) b i done = absurd (cc)
synched-HasData (tick e) b i done = absurd (cc)
synched-HasData (elsewhere e) b i done = absurd (cc (callers-Elsewhere 0 e))
synched-HasData (begin e) b i done = absurd (cc (Starts-busy 0 e b))
synched-HasData (list_failed e f g) b i done = absurd (cc)
synched-HasData (list_done e) b i done = absurd (cc)
synched-HasData (interrupted e ns nn c f g) b i done = absurd (cc)
synched-HasData (round ns nn c e w) b i done = absurd (cc)

-- What is known of the cache when `run` is at a place.
abbrev Knows : Phase → Machine → Type 0
Knows started m = Unit
Knows synching m = Unit
Knows up m = HasData m
Knows refused_at_start m = Unit
Knows failed_at_start m = Unit

background-Knows : (phase : Phase) {m n : Machine} → Move m n → Knows phase m → Knows phase n
background-Knows started e h = tt
background-Knows synching e h = tt
background-Knows up e h = Move-HasData e h
background-Knows refused_at_start e h = tt
background-Knows failed_at_start e h = tt

Reach-Knows : {r : Resources} {p : Program} → Reach r p → Knows p.phase p.machine
Reach-Knows here = tt
Reach-Knows (next h (background phase e k)) = background-Knows phase e (Reach-Knows h)
Reach-Knows (next h (calls e i b)) = tt
Reach-Knows (next h (Step.refused k)) = tt
Reach-Knows (next h (synched e b i done)) = synched-HasData e b i done
Reach-Knows (next h (synch_failed e b i k)) = tt

-- The cache of a program that is up has data.
pub Reach-cached :
    {r : Resources} {p : Program}
    → Reach r p
    → p.phase ≡ up
    → (c : AccessData) × (p.machine.cache.cached ≡ some c)
Reach-cached {p = p} h e = subst (λ ph. Knows ph p.machine) e (Reach-Knows h)

-- The moves of a program are moves of its goroutines.
pub Reach-Reaches : {r : Resources} {p : Program} → Reach r p → Reaches r p.machine
Reach-Reaches here = Reaches.here
Reach-Reaches (next h (background phase e k)) = Reaches.next (Reach-Reaches h) e
Reach-Reaches (next h (calls e i b)) = Reaches.next (Reach-Reaches h) e
Reach-Reaches (next h (Step.refused k)) = Reach-Reaches h
Reach-Reaches (next h (synched e b i done)) = Reaches.next (Reach-Reaches h) e
Reach-Reaches (next h (synch_failed e b i k)) = Reaches.next (Reach-Reaches h) e

pub Outcome-cases :
    {A : Type 0} (o : Outcome A) → ((a : A) × (o ≡ ok a)) ⊎ ((f : Fault) × (o ≡ panic f))
Outcome-cases (ok a) = inl (a, refl)
Outcome-cases (panic f) = inr (f, refl)

fault_of : {A : Type 0} → Fault → Outcome A → Fault
fault_of f (ok a) = f
fault_of f (panic g) = g

pub same_fault :
    {A B : Type 0} {f g : Fault}
    → Path (Outcome A) (panic f) (panic g)
    → Path (Outcome B) (panic f) (panic g)
unfolding fault_of
same_fault {f = f} h = ap panic (ap (fault_of f) h)

-- A cache with data answers whoever has a name that can be parsed.
list_namespaces-panic_iff :
    (it : Iteration) (cache : NamespaceCache) (c : AccessData) (username : String)
    (groups : List String) (f : Fault)
    → cache.cached ≡ some c
    → (new_subject_namespace_lister it cache username groups ≡ panic f)
      ↔ (parse_username username ≡ panic f)
unfolding new_subject_namespace_lister list_namespaces subjects
list_namespaces-panic_iff it cache c username groups f cached =
    elim (Outcome-cases (parse_username username)) [
      | inr (g, failed) ↦ rw failed (same_fault, same_fault)
      | inl (user, parsed) ↦
          let (r, returned, _) =
            list_keys-find_id it cache c (user ∷ map group_subject groups) cached in
          rw (parsed, returned) ((λ h. absurd (cc h)), (λ h. absurd (cc h)))
    ]

-- When the program has come up, no request meets the nil pointer of a cache that was never filled:
-- in every state that can be reached after the `Synch` of the start has returned nil, whatever the
-- goroutines do meanwhile, and in whatever order maps are visited, the lister panics for a username
-- and groups exactly if the username begins as a service account's does and has fewer than three
-- colons, and then with an index out of range.
pub Reach-panic_iff :
    {r : Resources} {p : Program}
    → Reach r p
    → p.phase ≡ up
    → (it : Iteration) (username : String) (groups : List String) (f : Fault)
    → (new_subject_namespace_lister it p.machine.cache username groups ≡ panic f) ↔ (
        (f ≡ index_out_of_range)
        × (starts_with username service_account_prefix ≡ true)
        × (occurrences b':' username < 3))
Reach-panic_iff {r} {p} h e it username groups f =
    let (c, cached) = Reach-cached h e in
    let (to, from) = list_namespaces-panic_iff it p.machine.cache c username groups f cached in
    let (bad, good) = parse_username-panic_iff username in
    (
      λ h.
          let k = to h in
          let same = parse_username_faults username f k in
          let (begins, few) = bad (k ∙ ap panic same) in (same, begins, few),
      λ (same, begins, few). from (good (begins, few) ∙ ap panic (sym same)),
    )
