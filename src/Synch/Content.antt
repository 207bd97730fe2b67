-- ===== src/Synch/Content.antt =====
-- What the data of a completed `synch` holds, and what a failed one leaves.
use mathlib.Core.List.{append-nil, append_assoc}
use namespace_lister.Base.{
  ℕ, suc, length, ◌+◌, ◌<◌, ◌⊎◌, ◌≡◌, refl, sym, subst, ◌∙◌, Bool, true, false, Option, none, some,
  List, [], ◌∷◌, ◌++◌, if◌then◌else◌, Slice, push, elements, string_eq, arith, contains, IsNodup,
  ◌==◌, Option-cases, inl, inr,
}
use namespace_lister.Base.Dict.{lookup, insert, lookup-insert}
use namespace_lister.AccessCache.{restock}
use namespace_lister.Kube.{Namespace, Subject, subject_eq}
use namespace_lister.Labels.{
  set_visibility_virtual_label, with_virtual_labels_and_annotations_for_access,
}
use namespace_lister.Labels.Laws.{listed}
use namespace_lister.Subjects.Canonical.{remove_duplicate_subjects_lem}
use namespace_lister.Synch.{
  Error, AccessData, Environment, World, slice_at, store_access, subjects_for, synch_rounds, synch,
}

abbrev if_one : Bool → Namespace → List Namespace
if_one b ns = if b then ns ∷ [] else []

slice_at-insert :
    (s sub : Subject) (nn : Slice Namespace) (c : AccessData)
    → slice_at s (insert sub nn c) ≡ (if sub == s then nn else slice_at s c)
unfolding slice_at
slice_at-insert s sub nn c = ground (arith, lookup-insert s sub nn c)

-- A subject that occurs once gets one more namespace.
store_access-elements :
    (ns : Namespace) (ss : List Subject) (c : AccessData) (s : Subject)
    → IsNodup ss
    → elements (slice_at s (store_access ns ss c))
      ≡ elements (slice_at s c)
        ++ if_one (contains ss s) (with_virtual_labels_and_annotations_for_access ns s)
unfolding store_access contains
store_access-elements ns [] c s h = rw append-nil
store_access-elements ns (sub ∷ ss) c s (fresh, h) =
    let lns = with_virtual_labels_and_annotations_for_access ns sub in
    ground (
      arith,
      store_access-elements ns ss (insert sub (push (slice_at sub c) lns) c) s h,
      slice_at-insert s sub (push (slice_at sub c) lns) c,
      append-nil (elements (slice_at sub c) ++ lns ∷ []),
    )

grow :
    (xs : List Namespace) (b : Bool) (ns : Namespace) (rest : List Namespace)
    → (xs ++ if_one b ns) ++ rest ≡ xs ++ (if b then ns ∷ rest else rest)
grow xs true ns rest = append_assoc xs (ns ∷ []) rest
grow xs false ns rest = rw append-nil

module _ (env : Environment) where
  -- The namespaces that `s` may get, in the order of the reader's list, as they are listed for `s`.
  unfoldable pub accessible : Subject → List Namespace → List Namespace
  accessible s [] = []
  accessible s (ns ∷ nn) =
      let rest = accessible s nn in
      if contains (subjects_for env ns) s then listed ns (subjects_for env ns) s ∷ rest else rest

  -- No round is interrupted.
  abbrev pub IsUninterrupted : Type 0
  IsUninterrupted = (i : ℕ) → env.ctx_err i ≡ none

  subjects_for-IsNodup : (ns : Namespace) → IsNodup (subjects_for env ns)
  unfolding subjects_for
  subjects_for-IsNodup ns = (remove_duplicate_subjects_lem _).1

  -- What one round that is not interrupted does.
  pub synch_rounds-step :
      (i : ℕ) (ns : Namespace) (nn : List Namespace) (c : AccessData)
      → env.ctx_err i ≡ none
      → let ns' = set_visibility_virtual_label ns (subjects_for env ns) in
        let r = synch_rounds env (suc i) nn (store_access ns' (subjects_for env ns) c) in
        synch_rounds env i (ns ∷ nn) c ≡ (r.0, r.1, ns' ∷ r.2)
  unfolding synch_rounds
  synch_rounds-step i ns nn c h = rw (h, synch_rounds)

  -- A round moves one namespace from what is left to what the data holds.
  pub store_access-accessible :
      (ns : Namespace) (nn : List Namespace) (c : AccessData) (s : Subject)
      → let ss = subjects_for env ns in
        elements (slice_at s (store_access (set_visibility_virtual_label ns ss) ss c))
          ++ accessible s nn
        ≡ elements (slice_at s c) ++ accessible s (ns ∷ nn)
  unfolding accessible listed
  store_access-accessible ns nn c s =
      let ss = subjects_for env ns in
      rw
        (store_access-elements (set_visibility_virtual_label ns ss) ss c s
          (subjects_for-IsNodup ns))
        (grow (elements (slice_at s c)) (contains ss s) _ _)

  pub synch_rounds-accessible :
      IsUninterrupted
      → (i : ℕ) (nn : List Namespace) (c : AccessData)
      → ((synch_rounds env i nn c).0 ≡ none)
        × ((s : Subject)
            → elements (slice_at s (synch_rounds env i nn c).1)
              ≡ elements (slice_at s c) ++ accessible s nn)
  unfolding accessible listed synch_rounds
  synch_rounds-accessible live i [] c = (refl, λ s. rw append-nil)
  synch_rounds-accessible live i (ns ∷ nn) c =
      let ss = subjects_for env ns in
      let ns' = set_visibility_virtual_label ns ss in
      let (fine, same) = synch_rounds-accessible live (suc i) nn (store_access ns' ss c) in
      (
        rw (synch_rounds-step i ns nn c (live i)) fine,
        λ s. rw (synch_rounds-step i ns nn c (live i)) (same s ∙ store_access-accessible ns nn c s),
      )

  -- An interrupted run reports what the context answered in one of its rounds.
  synch_rounds-error :
      (i : ℕ) (nn : List Namespace) (c : AccessData) (e : Error)
      → (synch_rounds env i nn c).0 ≡ some e
      → (j : ℕ) × (j < i + length nn) × (env.ctx_err j ≡ some e)
  unfolding synch_rounds
  synch_rounds-error i [] c e h = absurd (cc)
  synch_rounds-error i (ns ∷ nn) c e h = elim (Option-cases (env.ctx_err i)) [
    | inl live ↦
        let (j, below, found) = synch_rounds-error (suc i) nn _ e (rw (live, synch_rounds) at h) in
        (j, omega arith, found)
    | inr (x, stop) ↦ (i, omega arith, ground arith)
  ]

  -- A run that nothing interrupts succeeds: the cache is restocked with the returned data, and under
  -- each subject the data holds exactly the namespaces that the subject may get, in the order of the
  -- reader's list, each as it is listed for the subject.
  pub synch-accessible :
      (w : World)
      → env.list_error ≡ none
      → IsUninterrupted
      → (c : AccessData) × ((synch env w).1 ≡ some c)
        × ((synch env w).2 ≡ none)
        × ((synch env w).0.cache.cached ≡ some c)
        × ((s : Subject) → elements (slice_at s c) ≡ accessible s w.stored)
  unfolding synch restock lookup
  synch-accessible w fine live =
      let (done, same) = synch_rounds-accessible live 0 w.stored [] in
      ((synch_rounds env 0 w.stored []).1, ground arith, ground arith, ground arith, λ s. same s)

  synch_failed :
      (w : World) (e : Error)
      → (synch env w).2 ≡ some e
      → ((synch env w).0.cache ≡ w.cache)
        × ((env.list_error ≡ some e) ⊎ ((j : ℕ) × (j < length w.stored) × (env.ctx_err j ≡ some e)))
  unfolding synch
  synch_failed w e h = elim (Option-cases env.list_error) [
    | inr (x, failed) ↦ (ground arith, inl (ground arith))
    | inl fine ↦
        let (j, below, found) = synch_rounds-error 0 w.stored [] e (ground arith) in
        (ground arith, inr (j, omega arith, found))
  ]

  synch_done : (w : World) → (synch env w).2 ≡ none → (synch env w).0.cache.cached ≡ (synch env w).1
  unfolding synch restock
  synch_done w h = ground arith

  -- What a run of `synch` leaves, by the error that it returns.
  abbrev pub AllOrNothing : World → Option Error → Type 0
  AllOrNothing w none = (synch env w).0.cache.cached ≡ (synch env w).1
  AllOrNothing w (some e) =
      ((synch env w).0.cache ≡ w.cache)
      × ((env.list_error ≡ some e) ⊎ ((j : ℕ) × (j < length w.stored) × (env.ctx_err j ≡ some e)))

  -- `synch` is all or nothing. When it reports an error, the cache is as it was, and the error is the
  -- reader's or that of the context in one of the rounds; when it reports none, the cache holds the
  -- returned data.
  pub synch_atomic : (w : World) → AllOrNothing w (synch env w).2
  synch_atomic w = elim (Option-cases (synch env w).2) [
    | inl done ↦ subst (AllOrNothing w) (sym done) (synch_done w done)
    | inr (e, failed) ↦ subst (AllOrNothing w) (sym failed) (synch_failed w e failed)
  ]
