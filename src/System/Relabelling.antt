-- ===== src/System/Relabelling.antt =====
-- What is listed for a subject does not depend on the visibility labels that the store holds.
use namespace_lister.Base.{◌≡◌, refl, List, arith, string_eq}
use namespace_lister.Kube.{Namespace, Subject, subject_eq}
use namespace_lister.Labels.Laws.{listed, set_visibility-set_visibility}
use namespace_lister.Synch.Store.{subjects_for-set_visibility}
use namespace_lister.Synch.{Environment, subjects_for}
use namespace_lister.Synch.Content.{accessible}
use namespace_lister.System.{Relabelled, done, kept, written}

module _ (env : Environment) where
  pub accessible-Relabelled :
      (s : Subject) {nn mm : List Namespace}
      → Relabelled nn mm
      → accessible env s mm ≡ accessible env s nn
  unfolding accessible listed
  accessible-Relabelled s done = refl
  accessible-Relabelled s (kept ns r) = ground (arith, accessible-Relabelled s r)
  accessible-Relabelled s (written ns ss r) =
      let subs = subjects_for env ns in
      rw (subjects_for-set_visibility env ns ss, set_visibility-set_visibility ns subs ss)
        (ground (arith, accessible-Relabelled s r))
