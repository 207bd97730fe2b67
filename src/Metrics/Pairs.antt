-- ===== src/Metrics/Pairs.antt =====
-- The gauge of pairs that `CollectSynchMetrics` of pkg/auth/cache/metrics_accesscache.go sets.
use mathlib.Core.List.{Permᴰ}
use mathlib.Core.List.Permᴰ
use namespace_lister.Base.{
  ℕ, ◌+◌, String, ◌≡◌, refl, sym, ap, ◌∙◌, Option, none, some, List, [], ◌∷◌, length, ◌==◌,
  contains, string_eq, if◌then◌else◌, Slice, elements, Iteration, arith, IsNodup, contains-perm,
}
use namespace_lister.Base.Dict.{
  Dict, lookup, insert, keys, lookup-insert, insert-IsNodup, lookup-keys,
}
use namespace_lister.Kube.{Subject, Namespace}
use namespace_lister.Synch.{AccessData}
use namespace_lister.Metrics.{
  AccessCacheMetrics, subject_gk, count_pairs, set_gauges, collect_synch_metrics, or_zero,
}

-- The number of namespaces that a table lists for the subjects of a group and kind, if it has one.
unfoldable pub pairs_of : String → AccessData → Option ℕ
pairs_of gk [] = none
pairs_of gk ((s, v) ∷ entries) =
    let rest = pairs_of gk entries in
    if subject_gk s == gk then some (length (elements v) + or_zero rest) else rest

abbrev plus : Option ℕ → Option ℕ → Option ℕ
plus none o = o
plus (some n) o = some (n + or_zero o)

lookup-count_pairs :
    (gk : String) (entries : AccessData) (counts : Dict String ℕ)
    → lookup gk (count_pairs entries counts) ≡ plus (lookup gk counts) (pairs_of gk entries)
unfolding count_pairs pairs_of
lookup-count_pairs gk [] counts = ground arith
lookup-count_pairs gk ((s, v) ∷ entries) counts = ground (
  arith,
  lookup-count_pairs gk entries
      (insert (subject_gk s) (or_zero (lookup (subject_gk s) counts) + length (elements v)) counts),
  lookup-insert gk (subject_gk s) (or_zero (lookup (subject_gk s) counts) + length (elements v))
      counts,
)

count_pairs-IsNodup :
    (entries : AccessData) (counts : Dict String ℕ)
    → IsNodup (keys counts)
    → IsNodup (keys (count_pairs entries counts))
unfolding count_pairs
count_pairs-IsNodup [] counts h = h
count_pairs-IsNodup ((s, v) ∷ entries) counts h =
    count_pairs-IsNodup entries _ (insert-IsNodup (subject_gk s) _ counts h)

abbrev pub or_old : Option ℕ → Option ℕ → Option ℕ
or_old none old = old
or_old (some n) old = some n

lookup-set_gauges :
    (gk : String) (counts gauges : Dict String ℕ)
    → IsNodup (keys counts)
    → lookup gk (set_gauges counts gauges) ≡ or_old (lookup gk counts) (lookup gk gauges)
unfolding set_gauges lookup
lookup-set_gauges gk [] gauges h = refl
lookup-set_gauges gk ((g, n) ∷ counts) gauges (fresh, h) = ground (
  arith,
  lookup-set_gauges gk counts (insert g n gauges) h,
  lookup-insert gk g n gauges,
  lookup-keys gk counts,
)

keys-perm : {d d' : Dict String ℕ} → Permᴰ d d' → Permᴰ (keys d) (keys d')
keys-perm Permᴰ.nil = Permᴰ.nil
keys-perm (Permᴰ.cons p r) = Permᴰ.cons (ap (λ e. e.0) p) (keys-perm r)
keys-perm (Permᴰ.swap p q) = Permᴰ.swap (ap (λ e. e.0) p) (ap (λ e. e.0) q)
keys-perm (Permᴰ.trans r s) = Permᴰ.trans (keys-perm r) (keys-perm s)

IsNodup-perm : {xs ys : List String} → Permᴰ xs ys → IsNodup xs → IsNodup ys
unfolding contains
IsNodup-perm Permᴰ.nil h = tt
IsNodup-perm (Permᴰ.cons {a = x} p r) (q, h) = (ground (arith, contains-perm x r), IsNodup-perm r h)
IsNodup-perm (Permᴰ.swap p q) h = ground arith
IsNodup-perm (Permᴰ.trans r s) h = IsNodup-perm s (IsNodup-perm r h)

lookup-perm :
    {d d' : Dict String ℕ} (gk : String)
    → Permᴰ d d'
    → IsNodup (keys d)
    → lookup gk d ≡ lookup gk d'
unfolding lookup contains
lookup-perm gk Permᴰ.nil h = refl
lookup-perm gk (Permᴰ.cons p r) (q, h) = ground (arith, lookup-perm gk r h)
lookup-perm gk (Permᴰ.swap p q) h = ground arith
lookup-perm gk (Permᴰ.trans r s) h =
    lookup-perm gk r h ∙ lookup-perm gk s (IsNodup-perm (keys-perm r) h)

pairs_of-perm : {xs ys : AccessData} (gk : String) → Permᴰ xs ys → pairs_of gk xs ≡ pairs_of gk ys
unfolding pairs_of
pairs_of-perm gk Permᴰ.nil = refl
pairs_of-perm gk (Permᴰ.cons p r) = ground (arith, pairs_of-perm gk r)
pairs_of-perm gk (Permᴰ.swap p q) = ground arith
pairs_of-perm gk (Permᴰ.trans r s) = pairs_of-perm gk r ∙ pairs_of-perm gk s

-- After a synchronisation that succeeded, in whatever order the maps are visited, the gauge of a group
-- and kind with a subject in the table is the number of namespaces listed for its subjects, and that
-- of any other group and kind keeps the value it had.
pub pairs_counter-pairs_of :
    (it : Iteration) (duration : ℕ) (data_ : AccessData) (m : AccessCacheMetrics) (gk : String)
    → lookup gk (collect_synch_metrics it duration data_ none m).subject_namespace_pairs_counter
      ≡ or_old (pairs_of gk data_) (lookup gk m.subject_namespace_pairs_counter)
unfolding collect_synch_metrics lookup pairs_of
pairs_counter-pairs_of it duration data_ m gk =
    lookup-set_gauges gk (it.visit (String × ℕ) counts) m.subject_namespace_pairs_counter
      (IsNodup-perm (keys-perm (Permᴰ.symm (it.visit-perm (String × ℕ) counts))) fresh)
    ∙ rw (
      sym (lookup-perm gk (Permᴰ.symm (it.visit-perm (String × ℕ) counts)) fresh),
      lookup-count_pairs gk (it.visit (Subject × Slice Namespace) data_) [],
      pairs_of-perm gk (it.visit-perm (Subject × Slice Namespace) data_),
      lookup,
    )
  where
    counts : Dict String ℕ
    counts = count_pairs (it.visit (Subject × Slice Namespace) data_) []

    fresh : IsNodup (keys counts)
    fresh = count_pairs-IsNodup (it.visit (Subject × Slice Namespace) data_) [] tt
