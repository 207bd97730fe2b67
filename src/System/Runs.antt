-- ===== src/System/Runs.antt =====
-- `synch` as a whole against the moves of a run.
use mathlib.Core.List.{append_assoc}
use namespace_lister.Base.{ℕ, suc, refl, ◌≡◌, arith, sym, none, true, List, [], ◌∷◌, ◌++◌}
use namespace_lister.AccessCache.{restock}
use namespace_lister.Kube.{Namespace, Subject}
use namespace_lister.Labels.{set_visibility_virtual_label}
use namespace_lister.Synch.{AccessData, Environment, World, subjects_for, synch_rounds, synch}
use namespace_lister.Synch.Content.{synch_rounds-accessible}
use namespace_lister.Scheduler.{State}
use namespace_lister.System.Courses.{is_of_run, Only, Only-snoc, Only-Moves}
use namespace_lister.System.{
  environment, outside, listing, rounds, Machine, Relabelled, done, kept, written, Starts, Ends,
  after_round, begin, list_done, round, restocked, Moves, move,
}

pub Relabelled-refl : (nn : List Namespace) → Relabelled nn nn
Relabelled-refl [] = done
Relabelled-refl (ns ∷ nn) = kept ns (Relabelled-refl nn)

Relabelled-append :
    (pre : List Namespace) (ns : Namespace) (ss : List Subject) (nn : List Namespace)
    → Relabelled (pre ++ ns ∷ nn) (pre ++ set_visibility_virtual_label ns ss ∷ nn)
Relabelled-append [] ns ss nn = written ns ss (Relabelled-refl nn)
Relabelled-append (p ∷ pre) ns ss nn = kept p (Relabelled-append pre ns ss nn)

module _ (m : Machine) where
  abbrev env : Environment
  env = environment m.resources

  -- The machine in the loop of a run.
  abbrev in_loop : List Namespace → List Namespace → AccessData → Machine
  in_loop stored nn c = record m {
    resources = record (m.resources) { stored = stored };
    phase = rounds nn c;
  }

  rounds-Only :
      (i : ℕ) (pre nn : List Namespace) (c : AccessData)
      → Only is_of_run
          (in_loop (pre ++ nn) nn c)
          (in_loop (pre ++ (synch_rounds env i nn c).2) [] (synch_rounds env i nn c).1)
  unfolding synch_rounds after_round
  rounds-Only i pre [] c = Only.stay
  rounds-Only i pre (ns ∷ nn) c =
      let ss = subjects_for env ns in
      let ns' : Namespace = set_visibility_virtual_label ns ss in
      let c' : AccessData = after_round m.resources ns c in
      Only.move (round ns nn c refl (Relabelled-append pre ns ss nn)) refl (
        rw
          (
            sym (append_assoc pre (ns' ∷ []) nn),
            sym (append_assoc pre (ns' ∷ []) (synch_rounds env (suc i) nn c').2),
          )
          (rounds-Only (suc i) (pre ++ ns' ∷ []) nn c'))

-- The reader's store and the cache, as `synch` takes them.
abbrev pub world_of : Machine → World
world_of m = record { stored = m.resources.stored; cache = m.cache }

synch-synch_rounds :
    (m : Machine)
    → let r = synch_rounds (environment m.resources) 0 m.resources.stored [] in
      (synch (environment m.resources) (world_of m)).0
      ≡ record { stored = r.2; cache = restock r.1 m.cache }
unfolding synch
synch-synch_rounds m = ground (
  arith,
  (synch_rounds-accessible (environment m.resources) (λ i. refl) 0 m.resources.stored []).0,
)

-- A run that nothing disturbs, from its list to its return.
pub listing-Only :
    (m : Machine) (t u : State)
    → Ends t none u
    → Only is_of_run
        (record m { sched = t; phase = listing })
        (record m {
          sched = u;
          resources = record (m.resources) {
            stored = (synch (environment m.resources) (world_of m)).0.stored;
          };
          phase = outside;
          cache = (synch (environment m.resources) (world_of m)).0.cache;
          completed = true;
        })
listing-Only m t u f =
    let r = synch_rounds (environment m.resources) 0 m.resources.stored [] in
    let looped = rounds-Only (record m { sched = t }) 0 [] m.resources.stored [] in
    rw (synch-synch_rounds m)
      (Only.move (list_done refl) refl (Only-snoc looped (restocked r.1 refl f) refl))

-- `synch` is one of the ways in which a run can go: where a call of `Synch` gets past its guard,
-- and would return, there are moves, those of a run that nothing disturbs, that lead from its start
-- to its return, with the cache, and the labels in the store, that the function `synch` computes.
pub synch-Moves :
    (m : Machine) (t u : State)
    → Starts m.sched t
    → Ends t none u
    → Moves m (record m {
      sched = u;
      resources = record (m.resources) {
        stored = (synch (environment m.resources) (world_of m)).0.stored;
      };
      phase = outside;
      cache = (synch (environment m.resources) (world_of m)).0.cache;
      completed = true;
    })
synch-Moves m t u s f = move (begin s) (Only-Moves (listing-Only m t u f))
