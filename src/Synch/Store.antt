-- ===== src/Synch/Store.antt =====
-- The visibility label is written to maps that the reader's store may share: what that leaves behind.
use namespace_lister.Base.{
  ℕ, suc, ◌≡◌, refl, ap, List, [], ◌∷◌, string_eq, arith, Option-cases, inl, inr,
}
use namespace_lister.AccessCache.{restock}
use namespace_lister.Kube.{Namespace, Subject}
use namespace_lister.Labels.{set_visibility_virtual_label}
use namespace_lister.Labels.Laws.{set_visibility-set_visibility}
use namespace_lister.Synch.{
  AccessData, Environment, World, attributes_of, store_access, subjects_for, synch_rounds, synch,
}
use namespace_lister.Synch.Content.{synch_rounds-step}

module _ (env : Environment) where
  -- Who may get a namespace depends on its name alone.
  pub subjects_for-set_visibility :
      (ns : Namespace) (subs : List Subject)
      → subjects_for env (set_visibility_virtual_label ns subs) ≡ subjects_for env ns
  unfolding subjects_for set_visibility_virtual_label attributes_of
  subjects_for-set_visibility ns subs = refl

  synch_rounds_again :
      (i : ℕ) (nn : List Namespace) (c : AccessData)
      → synch_rounds env i (synch_rounds env i nn c).2 c ≡ synch_rounds env i nn c
  unfolding synch_rounds
  synch_rounds_again i [] c = refl
  synch_rounds_again i (ns ∷ nn) c = elim (Option-cases (env.ctx_err i)) [
    | inr (e, stop) ↦ rw (stop, synch_rounds) (rw (stop, synch_rounds))
    | inl live ↦
        let ss = subjects_for env ns in
        let ns' = set_visibility_virtual_label ns ss in
        let rest = store_access ns' ss c in
        rw (synch_rounds-step env i ns nn c live) (
          rw
            (
              synch_rounds-step env i ns' _ c live,
              subjects_for-set_visibility ns ss,
              set_visibility-set_visibility ns ss ss,
            )
            (ap (λ r. (r.0, r.1, ns' ∷ r.2)) (synch_rounds_again (suc i) nn rest)))
  ]

  -- A second run in the same environment returns and leaves exactly what the first one did, on every
  -- branch: with a store that shares its maps the labels that the first run wrote change nothing.
  pub synch_idempotent : (w : World) → synch env (synch env w).0 ≡ synch env w
  unfolding synch restock
  synch_idempotent w = ground (arith, synch_rounds_again 0 w.stored [])
