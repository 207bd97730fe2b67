-- ===== src/Tests/Cache.antt =====
-- Witnesses: the access cache, `synch` and the goroutines on concrete inputs.
use native.Mathlib.Decide.{ℕ_discrete}
use namespace_lister.Base.{
  ◌⊎◌, ℕ, ◌≤◌, length, ◌≡◌, ◌↔◌, refl, true, false, none, some, List, [], ◌∷◌, elements, Slice, ok,
  panic, nil_dereference, in_order, string_eq, nat_eq,
}
use namespace_lister.Base.Dict.{Dict, lookup, insert}
use namespace_lister.Kube.{subject_eq}
use namespace_lister.AccessCache.{AtomicListRestockCache, list_all, list_keys}
use namespace_lister.AccessCache.Listing.{
  find_id, slices_of, list_keys-find_id, list_keys-panic_iff,
}
use namespace_lister.Synch.{synch, synch_already_running}
use namespace_lister.Synch.Sets.{with_sets, synch-with_sets}
use namespace_lister.Synch.Content.{AllOrNothing, synch_atomic}
use namespace_lister.Synch.Store.{synch_idempotent}
use namespace_lister.Scheduler.{
  waiting, refused, report, is_synch_already_running_err, State, start, enter, running, calling,
  idle, busy, request, receive, Reach, here, next, event, take, work, call, update,
}
use namespace_lister.Scheduler.Exclusion.{IsExclusive, Reach-IsExclusive}
use namespace_lister.Scheduler.Requests.{
  IsKept, Reach-IsKept, OnlyRefusals, refusals_of, Reach-OnlyRefusals, enter_refused_iff,
}
use namespace_lister.Tests.{quiet, two_namespaces, alice, dev, empty_cache}

-- Two keys whose slices share the id 2, and a key with a nil slice.
abbrev numbers : Dict ℕ (Slice (ℕ × ℕ))
numbers = (1, some ((2, 10) ∷ (3, 11) ∷ [])) ∷ (4, none) ∷ (5, some ((2, 20) ∷ [])) ∷ []

abbrev pair_id : ℕ × ℕ → ℕ
pair_id p = p.0

abbrev stocked : AtomicListRestockCache ℕ (ℕ × ℕ) ℕ
stocked = record { cached = some numbers; id_func = pair_id }

abbrev three_keys : List ℕ
three_keys = 5 ∷ 4 ∷ 1 ∷ []

list_all_run : list_all in_order stocked three_keys ≡ ok (some ((2, 20) ∷ (3, 11) ∷ []))
unfolding list_all nat_eq lookup insert ℕ_discrete
list_all_run = refl

list_keys-find_id_example :
    (s : Slice (ℕ × ℕ)) × (list_keys in_order stocked three_keys ≡ ok s)
    × ((a : ℕ)
        → find_id pair_id a (elements s) ≡ find_id pair_id a (slices_of pair_id numbers three_keys))
list_keys-find_id_example = list_keys-find_id in_order stocked numbers three_keys refl

list_keys-panic_iff_example :
    (list_keys in_order empty_cache (alice ∷ dev ∷ []) ≡ panic nil_dereference)
    ↔ ((empty_cache.cached ≡ none) × (2 ≤ length (alice ∷ dev ∷ [])))
list_keys-panic_iff_example = list_keys-panic_iff in_order empty_cache (alice ∷ dev ∷ [])

synch_atomic_example : AllOrNothing quiet two_namespaces (synch quiet two_namespaces).2
synch_atomic_example = synch_atomic quiet two_namespaces

synch_idempotent_example : synch quiet (synch quiet two_namespaces).0 ≡ synch quiet two_namespaces
synch_idempotent_example = synch_idempotent quiet two_namespaces

-- The program starts while an event wakes the worker, and the worker gets ahead.
abbrev asked : State
asked = record start { shared = record { requested = true; synchronizing = false }; pending = true }

abbrev taken_up : State
taken_up = record asked {
  shared = record { requested = false; synchronizing = false };
  worker = calling;
}

abbrev ahead : State
ahead = record taken_up {
  shared = record { requested = false; synchronizing = true };
  worker = running;
  pending = false;
}

abbrev behind : State
behind = record taken_up {
  shared = record { requested = false; synchronizing = true };
  callers = update (λ i. idle) 0 busy;
  pending = false;
}

taken_up_reached : Reach taken_up
unfolding start request receive
taken_up_reached = next (next here event) (take refl refl)

ahead_reached : Reach ahead
unfolding start enter
ahead_reached = next taken_up_reached (work refl refl)

behind_reached : Reach behind
unfolding start enter
behind_reached = next taken_up_reached (call 0 refl refl)

Reach-IsExclusive_example : IsExclusive ahead
Reach-IsExclusive_example = Reach-IsExclusive ahead_reached

Reach-IsKept_example : IsKept taken_up
Reach-IsKept_example = Reach-IsKept taken_up_reached

asked_reached : Reach asked
unfolding start request
asked_reached = next here event

-- The worker's call is refused while the start is inside, and the error handler is given that.
abbrev told : State
told = record behind {
  worker = waiting;
  handled = report (some synch_already_running) behind.handled;
}

told_reached : Reach told
unfolding enter
told_reached = next behind_reached (refused refl refl)

told_refusal : (told.handled ≡ synch_already_running ∷ []) × (refusals_of told_reached ≡ 1)
unfolding start report is_synch_already_running_err told_reached behind_reached taken_up_reached
told_refusal = (refl, refl)

Reach-OnlyRefusals_example :
    OnlyRefusals told.handled × (length told.handled ≡ refusals_of told_reached)
Reach-OnlyRefusals_example = Reach-OnlyRefusals told_reached

enter_refused_iff_example :
    ((enter behind.shared).1 ≡ false)
    ↔ ((behind.worker ≡ running) ⊎ ((i : ℕ) × (behind.callers i ≡ busy)))
enter_refused_iff_example = enter_refused_iff behind_reached

synch-with_sets_example : synch (with_sets quiet) two_namespaces ≡ synch quiet two_namespaces
synch-with_sets_example = synch-with_sets quiet two_namespaces
