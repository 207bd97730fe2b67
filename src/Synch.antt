-- ===== src/Synch.antt =====
-- `synch` of pkg/auth/cache/synchronized_access_cache.go: it computes the access data and restocks
-- the cache. Logging is left out.
pub mod Content
pub mod Store
pub mod Sets
use namespace_lister.Base.{
  ℕ, zero, suc, String, Bool, true, Option, none, some, List, [], ◌∷◌, if◌then◌else◌, Slice, push,
  elements, string_eq,
}
use namespace_lister.Base.Dict.{Dict, lookup, insert}
use namespace_lister.AccessCache.{AtomicListRestockCache, new_atomic_list_restock_cache, restock}
use namespace_lister.Kube.{Namespace, Subject, subject_eq, core_group_name, core_version}
use namespace_lister.Labels.{
  set_visibility_virtual_label, with_virtual_labels_and_annotations_for_access,
}
use namespace_lister.Subjects.{remove_duplicate_subjects}

-- A value of type `error`; `ErrSynchAlreadyRunning` is told from the others.
pub data Error : Type 0 where
  synch_already_running : Error
  other : String → Error

-- `AccessData`
abbrev pub AccessData : Type 0
AccessData = Dict Subject (Slice Namespace)

abbrev pub NamespaceCache : Type 0
NamespaceCache = AtomicListRestockCache Subject Namespace String

-- `NewAtomicListRestockAccessCache` of pkg/auth/cache/access_cache.go
unfoldable pub new_atomic_list_restock_access_cache : NamespaceCache
unfolding new_atomic_list_restock_cache
new_atomic_list_restock_access_cache = new_atomic_list_restock_cache (λ ns. ns.meta.name)

-- `authorizer.AttributesRecord`
pub record Attributes : Type 0 where
  pub verb : String
  pub resource : String
  pub api_group : String
  pub api_version : String
  pub name : String
  pub namespace : String
  pub resource_request : Bool

-- What `synch` calls and does not implement. `ctx_err i` is what `ctx.Err` answers in round `i`;
-- `deep_copies` says whether the reader's answer has maps of its own or refers to its store's maps.
pub record Environment : Type 0 where
  pub list_error : Option Error
  pub deep_copies : Bool
  pub ctx_err : ℕ → Option Error
  pub allowed_subjects : Attributes → List Subject × Option Error

-- The reader's store of namespaces, and the cache.
pub record World : Type 0 where
  pub stored : List Namespace
  pub cache : NamespaceCache

unfoldable pub attributes_of : Namespace → Attributes
attributes_of ns = record {
  verb = "get";
  resource = "namespaces";
  api_group = core_group_name;
  api_version = core_version;
  name = ns.meta.name;
  namespace = ns.meta.name;
  resource_request = true;
}

-- `c[sub]`, the nil slice if the key is missing
unfoldable pub slice_at : Subject → AccessData → Slice Namespace
slice_at sub c = elim (lookup sub c) [ none ↦ none | some nn ↦ nn ]

-- the inner loop of `synch`
unfoldable pub store_access : Namespace → List Subject → AccessData → AccessData
store_access ns [] c = c
store_access ns (sub ∷ ss) c =
    let lns = with_virtual_labels_and_annotations_for_access ns sub in
    store_access ns ss (insert sub (push (slice_at sub c) lns) c)

module _ (env : Environment) where
  -- The allowed subjects of a namespace; an error of the locator is only logged.
  unfoldable pub subjects_for : Namespace → List Subject
  unfolding attributes_of
  subjects_for ns = remove_duplicate_subjects (env.allowed_subjects (attributes_of ns)).0

  -- The outer loop of `synch` from round `i`: the error that interrupts it, the data, and the
  -- namespaces with what was written to their maps of labels.
  unfoldable pub synch_rounds :
      ℕ → List Namespace → AccessData → Option Error × AccessData × List Namespace
  unfolding subjects_for store_access
  synch_rounds i [] c = (none, c, [])
  synch_rounds i (ns ∷ nn) c = elim (env.ctx_err i) [
    | some err ↦ (some err, [], ns ∷ nn)
    | none ↦
        let ss = subjects_for ns in
        let ns' = set_visibility_virtual_label ns ss in
        let (err, c', nn') = synch_rounds (suc i) nn (store_access ns' ss c) in (err, c', ns' ∷ nn')
  ]

  -- `synch`: the new state, the returned data (`none` is the nil map) and the returned error.
  unfoldable pub synch : World → World × Option AccessData × Option Error
  unfolding synch_rounds restock slice_at
  synch w = elim env.list_error [
    | some err ↦ (w, none, some err)
    | none ↦
        let (err, c, written) = synch_rounds 0 w.stored [] in
        let stored = if env.deep_copies then w.stored else written in
        elim err [
          | some e ↦ (record w { stored = stored }, some [], some e)
          | none ↦ (record { stored = stored; cache = restock c w.cache }, some c, none)
        ]
  ]
