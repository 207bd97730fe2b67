-- ===== src/Program/Granted.antt =====
-- What the lister lists was granted to the user.
use namespace_lister.Base.{
  ◌≡◌, refl, ap, sym, ◌∙◌, inl, inr, String, Bool, Bool-cases, true, any, ok, panic, Outcome, List,
  [], ◌∷◌, Slice, elements, none, map, contains, string_eq, Iteration, arith,
}
use namespace_lister.Kube.{Namespace, Subject, subject_eq}
use namespace_lister.Lister.{
  NamespaceList, Reply, success, failure, group_subject, parse_username, subjects, list_namespaces,
  new_subject_namespace_lister,
}
use namespace_lister.Lister.Access.{name_of, list_namespaces_run, found-any}
use namespace_lister.System.{Resources}
use namespace_lister.System.Fresh.{Reaches-id_func}
use namespace_lister.System.Granted.{WasStored, WasAllowed, holds, Reaches-CacheWas}
use namespace_lister.Program.{up, Program, Reach}
use namespace_lister.Program.Serving.{Reach-cached, Reach-Reaches, Outcome-cases}

-- One of the subjects has a property that some of them have.
any-some :
    (f : Subject → Bool) (ss : List Subject)
    → any f ss ≡ true
    → (s : Subject) × (contains ss s ≡ true) × (f s ≡ true)
unfolding contains
any-some f [] h = absurd (cc)
any-some f (s ∷ ss) h = elim (Bool-cases (f s)) [
  | inl has ↦ (s, ground arith, has)
  | inr lacks ↦
      let (t, found, holds_t) = any-some f ss (ground arith) in (t, ground (arith, found), holds_t)
]

items_of : Outcome Reply → Slice Namespace
items_of (ok (success answer)) = answer.items
items_of (ok (failure e)) = none
items_of (panic f) = none

-- Nobody is listed what was never granted. In every state that can be reached once the program has
-- come up, whatever the goroutines and the resources do meanwhile, and however many runs of `synch`
-- failed or raced with changes: whenever the lister answers a username and groups with a list, and a
-- name is on it, a namespace of that name was stored in the resource cache at some time since the
-- start, and at some time since the start getting it was allowed to one of the subjects that the
-- username and the groups stand for.
pub Reach-WasAllowed :
    {r : Resources} {p : Program} (h : Reach r p)
    → p.phase ≡ up
    → (it : Iteration) (username : String) (groups : List String) (answer : NamespaceList)
      (a : String)
    → new_subject_namespace_lister it p.machine.cache username groups ≡ ok (success answer)
    → contains (map name_of (elements answer.items)) a ≡ true
    → (subs : List Subject) × (s : Subject) × (subjects username groups ≡ ok subs)
      × (contains subs s ≡ true)
      × WasStored (Reach-Reaches h) a
      × WasAllowed (Reach-Reaches h) s a
unfolding new_subject_namespace_lister list_namespaces subjects items_of
Reach-WasAllowed {r} {p} h e it username groups answer a answered listed =
    elim (Outcome-cases (parse_username username)) [
      | inr (f, failed) ↦ absurd (ground arith)
      | inl (user, parsed) ↦
          let (c, cached) = Reach-cached h e in
          let subs : List Subject = user ∷ map group_subject groups in
          let (items, returned, found, _) =
            list_namespaces_run it p.machine.cache c username groups user cached
              (Reaches-id_func (Reach-Reaches h)) parsed in
          let same : items ≡ answer.items = ap items_of (sym returned ∙ answered) in
          let (s, among, held) =
            any-some (λ s. holds c s a) subs
              (sym (found-any c subs items found a) ∙ rw same listed) in
          let (stored, allowed) = Reaches-CacheWas (Reach-Reaches h) c s a cached held in
          (subs, s, rw parsed refl, among, stored, allowed)
    ]
