-- ===== src/Synch/Sets.antt =====
-- The data of `synch` depends on the sets of allowed subjects alone, not on the order or the repetition
-- in which the locator gives them.
use mathlib.Core.HLevel.{hedberg}
use mathlib.Core.Quot
use mathlib.Core.Quot.{Quot}
use namespace_lister.Base.{
  ℕ, suc, ◌≡◌, refl, none, List, [], ◌∷◌, contains, arith, Option-cases, inl, inr,
}
use namespace_lister.Kube.{Namespace, Subject, subject_eq, Subject_dec}
use namespace_lister.Labels.{set_visibility_virtual_label}
use namespace_lister.Subjects.{remove_duplicate_subjects}
use namespace_lister.Subjects.Canonical.{
  remove_duplicate_subjects_lem, remove_duplicate_subjects_canonical,
}
use namespace_lister.Synch.Content.{synch_rounds-step}
use namespace_lister.Synch.{
  AccessData, Environment, World, attributes_of, subjects_for, store_access, synch_rounds, synch,
}

-- The same subjects occur.
abbrev pub SameMembers : List Subject → List Subject → Type 0
SameMembers ss rr = (s : Subject) → contains ss s ≡ contains rr s

-- A set of subjects: a list, of which order and repetition are forgotten.
abbrev pub SubjectSet : Type 0
SubjectSet = Quot SameMembers

Subject_set : IsSet Subject
Subject_set = hedberg Subject_dec

List_set : IsSet (List Subject)
List_set = hlevel Subject_set

-- The list of a set that `removeDuplicateSubjects` makes of each of its lists.
pub listing_of : SubjectSet → List Subject
listing_of = Quot.lift List_set remove_duplicate_subjects remove_duplicate_subjects_canonical

-- The environment in which the locator answers with a set, and without an error.
abbrev pub with_sets : Environment → Environment
with_sets env = record env {
  allowed_subjects = λ a. (listing_of (Quot.mk (env.allowed_subjects a).0), none);
}

module _ (env : Environment) where
  subjects_for-with_sets : (ns : Namespace) → subjects_for (with_sets env) ns ≡ subjects_for env ns
  unfolding subjects_for listing_of
  subjects_for-with_sets ns =
      let ss = (env.allowed_subjects (attributes_of ns)).0 in
      remove_duplicate_subjects_canonical _ ss (remove_duplicate_subjects_lem ss).0

  synch_rounds-with_sets :
      (i : ℕ) (nn : List Namespace) (c : AccessData)
      → synch_rounds (with_sets env) i nn c ≡ synch_rounds env i nn c
  unfolding synch_rounds
  synch_rounds-with_sets i [] c = refl
  synch_rounds-with_sets i (ns ∷ nn) c = elim (Option-cases (env.ctx_err i)) [
    | inr (e, ended) ↦ rw (synch_rounds, ended) refl
    | inl live ↦
        let ss = subjects_for env ns in
        let ns' = set_visibility_virtual_label ns ss in
        rw
          (
            synch_rounds-step (with_sets env) i ns nn c live,
            synch_rounds-step env i ns nn c live,
            subjects_for-with_sets ns,
            synch_rounds-with_sets (suc i) nn (store_access ns' ss c),
          )
          refl
  ]

  -- On every branch `synch` returns and leaves what it would if the locator gave the set of the allowed
  -- subjects of each namespace, without an order, a repetition or an error.
  pub synch-with_sets : (w : World) → synch (with_sets env) w ≡ synch env w
  unfolding synch
  synch-with_sets w = ground (arith, synch_rounds-with_sets 0 w.stored [])
