-- ===== src/Acceptance/Checks/Service.antt =====
-- The check of the acceptance tests on what the service answers.
use mathlib.Core.List.{Memᴰ}
use mathlib.Core.List.Memᴰ.{head, tail}
use namespace_lister.Base.{
  ◌≡◌, refl, sym, ap, subst, ◌∙◌, ◌↔◌, String, String_dec, Bool, true, false, ◌&&◌, Option, none,
  some, List, [], ◌∷◌, map, any, All, IsNodup, contains, ◌==◌, string_eq, arith, if◌then◌else◌,
  Slice, elements, ok, Iteration, Bool-cases, inl, inr,
}
use namespace_lister.Kube.{Namespace, Subject, subject_eq, core_version}
use namespace_lister.Labels.{
  set_visibility_virtual_label, with_virtual_labels_and_annotations_for_access,
}
use namespace_lister.Labels.Laws.{has_labels, listed, label, label-inserted}
use namespace_lister.Synch.{Environment, World, subjects_for, synch}
use namespace_lister.Synch.Content.{IsUninterrupted}
use namespace_lister.AccessCache.Listing.{find_id}
use namespace_lister.Lister.{success, group_subject, parse_username, new_subject_namespace_lister}
use namespace_lister.Lister.Access.{name_of, may_get, ListsAccess}
use namespace_lister.Lister.Presents.{Presents, All-Found, All-map, list_namespaces-Presents}
use namespace_lister.Acceptance.Checks.{or_empty_text, run_items, retrieves_only_accessible}
use namespace_lister.Acceptance.Checks.Accessible.{retrieves_only_accessible_iff}

if_and_false : (b : Bool) (x y : Option String) → (if b && false then x else y) ≡ y
if_and_false b x y = ground arith

label_run-listed :
    (ns : Namespace) (subs : List Subject) (s : Subject)
    → label "namespace-lister/test-run" (listed ns subs s) ≡ label "namespace-lister/test-run" ns
unfolding String_dec string_eq
label_run-listed ns subs s =
    label-inserted "namespace-lister/test-run" ns subs s
    ∙ if_and_false (has_labels ns.meta.labels) _ _

module _ (run : String) where
  -- A namespace has the label of the run.
  abbrev carries : Namespace → Bool
  carries ns = or_empty_text (label "namespace-lister/test-run" ns) == run

  carries-listed :
      (ns : Namespace) (subs : List Subject) (s : Subject) → carries (listed ns subs s) ≡ carries ns
  carries-listed ns subs s = ap (λ o. or_empty_text o == run) (label_run-listed ns subs s)

  -- Whether a namespace has the label is a matter of its name.
  module _ (K : String → Bool) where
    abbrev Named : Namespace → Type 0
    Named n = carries n ≡ K (name_of n)

    contains-run_items :
        (a : String) (nn : List Namespace)
        → All Named nn
        → contains (map name_of (run_items run nn)) a ≡ contains (map name_of nn) a && K a
    unfolding contains run_items
    contains-run_items a [] h = refl
    contains-run_items a (n ∷ nn) (p, h) = ground (arith, contains-run_items a nn h, p)

    IsNodup-run_items :
        (nn : List Namespace)
        → All Named nn
        → IsNodup (map name_of nn)
        → IsNodup (map name_of (run_items run nn))
    unfolding run_items
    IsNodup-run_items [] h d = tt
    IsNodup-run_items (n ∷ nn) (p, h) (fresh, d) =
        let rest = IsNodup-run_items nn h d in
        elim (Bool-cases (carries n)) [
          | inl held ↦ rw held (ground (arith, contains-run_items (name_of n) nn h), rest)
          | inr missing ↦ rw missing rest
        ]

    any-run_items :
        (q : Namespace → Bool) (a : String) (nn : List Namespace)
        → All Named nn
        → any (λ ns. ns.meta.name == a && q ns) (run_items run nn)
          ≡ any (λ ns. ns.meta.name == a && q ns) nn && K a
    unfolding run_items
    any-run_items q a [] h = refl
    any-run_items q a (n ∷ nn) (p, h) = ground (arith, any-run_items q a nn h, p)

pub any_and :
    (x y : Subject → Bool) (k : Bool)
    → ((s : Subject) → y s ≡ x s && k)
    → (subs : List Subject) → any y subs ≡ any x subs && k
any_and x y k h [] = refl
any_and x y k h (s ∷ subs) = ground (arith, h s, any_and x y k h subs)

All-Memᴰ :
    (P : Namespace → Type 0) (n : Namespace) (nn : List Namespace) → All P nn → Memᴰ n nn → P n
All-Memᴰ P n [] h mem = elim mem [ ]
All-Memᴰ P n (m ∷ nn) (p, h) (head e) = subst P (sym e) p
All-Memᴰ P n (m ∷ nn) (p, h) (tail mem) = All-Memᴰ P n nn h mem

name_of-listed :
    (ns : Namespace) (subs : List Subject) (s : Subject) → name_of (listed ns subs s) ≡ name_of ns
unfolding listed set_visibility_virtual_label with_virtual_labels_and_annotations_for_access
name_of-listed ns subs s = refl

module _ (run : String) (env : Environment) (stored : List Namespace) where
  -- Whether the stored namespace of a name has the label of the run.
  abbrev test : Option Namespace → Bool
  test none = false
  test (some n) = carries run n

  abbrev by_name : String → Bool
  by_name a = test (find_id name_of a stored)

  stored-Named : IsNodup (map name_of stored) → All (Named run by_name) stored
  stored-Named distinct =
      All-map (λ n found. sym (ap test found)) stored (All-Found stored distinct)

  Presents-Named :
      (subs : List Subject) (nn : List Namespace)
      → All (Named run by_name) stored
      → All (Presents env stored subs) nn
      → All (Named run by_name) nn
  Presents-Named subs nn named =
      All-map
        (λ n (s, ns, _, stays, _, e).
          ap (carries run) e
          ∙ carries-listed run ns (subjects_for env ns) s
          ∙ All-Memᴰ (Named run by_name) ns stored named stays
          ∙ ap by_name (sym (name_of-listed ns (subjects_for env ns) s))
          ∙ ap (λ m. by_name (name_of m)) (sym e))
        nn

  run-ListsAccess :
      (subs : List Subject) (r : Slice Namespace)
      → All (Named run by_name) stored
      → All (Named run by_name) (elements r)
      → ListsAccess env stored subs r
      → ListsAccess env (run_items run stored) subs (some (run_items run (elements r)))
  run-ListsAccess subs r named named' lists a =
      contains-run_items run by_name a (elements r) named'
      ∙ ap (λ b. b && by_name a) (lists a)
      ∙ sym (
          any_and _ _ (by_name a) (λ s. any-run_items run by_name (may_get env s) a stored named)
            subs)

-- What the acceptance check on the answer of the service means. After a run of `synch` that nothing
-- interrupts, where the stored namespaces differ in their names, the lister answers a user whose name
-- can be parsed; and the check that the user retrieves the expected namespaces only passes on this
-- answer if and only if the expected names, which differ, are those of the stored namespaces of the
-- test's run that the user or one of the groups may get.
pub retrieves_only_accessible-may_get :
    (run : String) (env : Environment) (it : Iteration) (w : World) (username : String)
    (groups : List String) (user : Subject) (enn : Slice Namespace)
    → env.list_error ≡ none
    → IsUninterrupted env
    → w.cache.id_func ≡ name_of
    → IsNodup (map name_of w.stored)
    → parse_username username ≡ ok user
    → IsNodup (map name_of (elements enn))
    → (r : Slice Namespace) × (new_subject_namespace_lister it (synch env w).0.cache username groups
        ≡ ok (success (record { kind = "NamespaceList"; api_version = core_version; items = r })))
      × ((retrieves_only_accessible run enn r none ≡ true)
          ↔ ListsAccess env (run_items run w.stored) (user ∷ map group_subject groups) enn)
retrieves_only_accessible-may_get run env it w username groups user enn fine live named distinct
      parsed fresh =
    let subs : List Subject = user ∷ map group_subject groups in
    let (r, returned, lists, once, presents) =
      list_namespaces-Presents env it w username groups user fine live named distinct parsed in
    let labelled = stored-Named run env w.stored distinct in
    let labelled' = Presents-Named run env w.stored subs (elements r) labelled presents in
    let access = run-ListsAccess run env w.stored subs r labelled labelled' lists in
    let (to, from) =
      retrieves_only_accessible_iff run enn r fresh
        (IsNodup-run_items run (by_name run env w.stored) (elements r) labelled' once) in
    (
      r,
      returned,
      (
        λ passes a. sym (to passes a) ∙ access a,
        λ expected. from (λ a. access a ∙ sym (expected a)),
      ),
    )
