-- ===== src/Tests/Coming.antt =====
-- Witnesses: the program comes up, and ends.
use text.Mathlib.Text.{starts_with}
use namespace_lister.Base.Text.{occurrences}
use namespace_lister.Base.{
  contains, map, elements, ok, String_dec, string_eq, ◌<◌, ◌↔◌, true, false, none, some, List, [],
  ◌∷◌, ◌≡◌, refl, in_order, panic, index_out_of_range, nat_eq,
}
use namespace_lister.Kube.{Subject, subject_eq, core_version, Namespace}
use namespace_lister.Synch.{slice_at, store_access, subjects_for, AccessData}
use namespace_lister.Scheduler.{start}
use namespace_lister.System.{
  Machine, initial, outside, listing, rounds, begin, list_done, round, restocked, after_round,
}
use namespace_lister.System.Runs.{Relabelled-refl}
use namespace_lister.Lister.{
  NamespaceList, success, list_namespaces, subjects, new_subject_namespace_lister,
  service_account_prefix,
}
use namespace_lister.Program.{synching, up, Reach, here, next, background, calls, synched}
use namespace_lister.Program.Serving.{Reach-Reaches}
use namespace_lister.Program.Panics.{api_server-panic_iff}
use namespace_lister.Http.{Request, User, header_get, no_reply}
use namespace_lister.Http.Authn.{authenticate_request}
use namespace_lister.Http.Server.{api_server}
use namespace_lister.Tests.Serving.{encoding, by_header, blank, asking}
use namespace_lister.Program.Granted.{Reach-WasAllowed}
use namespace_lister.System.Granted.{WasStored, WasAllowed}
use namespace_lister.Lister.Access.{name_of}
use namespace_lister.Subjects.{remove_duplicate_subjects}
use namespace_lister.Base.Sort.{compact_func, sort_func}
use namespace_lister.Labels.{
  with_virtual_labels_and_annotations_for_access, set_visibility_virtual_label,
}
use namespace_lister.Base.Dict.{lookup, insert}
use namespace_lister.Lifecycle.{Process, serving, is_orderly, shutting}
use namespace_lister.Lifecycle
use namespace_lister.Lifecycle.Exits.{Exits, Reach-Exits}
use namespace_lister.Lifecycle.Dropped.{Reach-drops}
use namespace_lister.AccessCache.{list_keys, list, restock}
use namespace_lister.Tests.{alice, alpha, beta}
use namespace_lister.Tests.Running.{two, inside, after, starting, ending}

abbrev entered : Machine
entered = record (initial two) { sched = inside; phase = listing }

abbrev in_loop : List Namespace → AccessData → Machine
in_loop nn c = record entered { phase = rounds nn c }

abbrev one_round : AccessData
one_round = after_round two alpha []

abbrev two_rounds : AccessData
two_rounds = after_round two beta one_round

abbrev ready : Machine
ready = record entered {
  sched = after;
  phase = outside;
  cache = restock two_rounds entered.cache;
  completed = true;
}

ready-Reach : Reach two (record { machine = ready; phase = up })
unfolding start nat_eq native.Mathlib.Decide.ℕ_discrete
ready-Reach =
    let w = Relabelled-refl two.stored in
    let h₁ = next here (calls (begin starting) refl refl) in
    let h₂ = next h₁ (background synching (list_done refl) refl) in
    let h₃ = next h₂ (background synching (round alpha (beta ∷ []) [] refl w) refl) in
    let h₄ = next h₃ (background synching (round beta [] one_round refl w) refl) in
    next h₄ (synched (restocked two_rounds refl ending) refl refl refl)

-- A request that names a service account without its colons.
abbrev malformed : Request
malformed = record asking { headers = λ name. "system:serviceaccount:x" ∷ [] }

abbrev malformed_user : User
malformed_user = record {
  name = "system:serviceaccount:x";
  groups = "system:serviceaccount:x" ∷ [];
}

api_server-panic_iff_example :
    (api_server encoding none
        (authenticate_request by_header)
        (new_subject_namespace_lister in_order ready.cache)
        blank
        malformed
        no_reply
      ≡ panic index_out_of_range)
    ↔ ((index_out_of_range ≡ index_out_of_range)
        × (starts_with malformed_user.name service_account_prefix ≡ true)
        × (occurrences b':' malformed_user.name < 3))
unfolding authenticate_request header_get String_dec string_eq
api_server-panic_iff_example =
    api_server-panic_iff ready-Reach refl encoding none tt blank malformed (refl, refl)
      (authenticate_request by_header) malformed_user refl refl refl in_order index_out_of_range

-- What alice is answered.
abbrev for_alice : NamespaceList
for_alice = record {
  kind = "NamespaceList";
  api_version = core_version;
  items = slice_at alice two_rounds;
}

answered_alice :
    new_subject_namespace_lister in_order ready.cache "alice" [] ≡ ok (success for_alice)
unfolding new_subject_namespace_lister list_namespaces subjects list_keys list slice_at restock
answered_alice = refl

lists_alpha : contains (map name_of (elements for_alice.items)) "alpha" ≡ true
unfolding contains slice_at after_round store_access subjects_for remove_duplicate_subjects
    subject_eq string_eq String_dec lookup insert compact_func sort_func
    with_virtual_labels_and_annotations_for_access set_visibility_virtual_label
lists_alpha = refl

Reach-WasAllowed_example :
    (subs : List Subject) × (s : Subject) × (subjects "alice" [] ≡ ok subs)
    × (contains subs s ≡ true)
    × WasStored (Reach-Reaches ready-Reach) "alpha"
    × WasAllowed (Reach-Reaches ready-Reach) s "alpha"
Reach-WasAllowed_example =
    Reach-WasAllowed ready-Reach refl in_order "alice" [] for_alice "alpha" answered_alice
      lists_alpha

Reach-Exits_example : Exits (record (serving true false) { cancelled = true })
Reach-Exits_example =
    Reach-Exits {enable_metrics = true} {signalled = false}
      (Lifecycle.next Lifecycle.here refl Lifecycle.signal)

Reach-drops_example :
    (p : Process) × (h : Lifecycle.Reach (serving true false) p) × (is_orderly h ≡ true)
    × (p.exited ≡ some 1)
    × (p.in_flight ≡ 2)
    × (p.shutdown ≡ shutting)
Reach-drops_example = Reach-drops true 2
