-- ===== src/System/Granted.antt =====
-- Whatever the access cache holds for a subject was granted to it: a safety property of all runs,
-- completed or not, while the resources change.
use mathlib.Core.List.{append-nil, map-append}
use namespace_lister.Base.{
  ◌≡◌, ap, sym, ◌∙◌, ◌⊎◌, inl, inr, String, Bool, Bool-cases, true, ◌||◌, ◌&&◌, Option, none, some,
  List, [], ◌∷◌, map, contains, contains-append, string_eq, elements, ◌==◌, arith, subst,
}
use namespace_lister.AccessCache.{restock, new_atomic_list_restock_cache}
use namespace_lister.Base.Dict.{lookup}
use namespace_lister.Kube.{Namespace, Subject, subject_eq}
use namespace_lister.Lister.Access.{name_of, may_get, contains-accessible}
use namespace_lister.Synch.{AccessData, slice_at, new_atomic_list_restock_access_cache}
use namespace_lister.Synch.Content.{accessible, store_access-accessible}
use namespace_lister.System.{
  Resources, environment, Phase, outside, listing, rounds, Machine, after_round, Move, change,
  deliver, tick, elsewhere, begin, list_failed, list_done, interrupted, round, restocked, Reaches,
  here, next,
}

-- The resources of a state that was reached on the way.
pub data Held {r : Resources} : (m : Machine) → Reaches r m → Resources → Type 0 where
  now : {m : Machine} (h : Reaches r m) → Held m h m.resources
  earlier :
      {m n : Machine} {h : Reaches r m} {past : Resources} (e : Move m n)
      → Held m h past
      → Held n (next h e) past

-- A namespace of this name was stored at some time.
abbrev pub WasStored : {r : Resources} {m : Machine} → Reaches r m → String → Type 0
WasStored {m = m} h a =
    (past : Resources) × Held m h past × (contains (map name_of past.stored) a ≡ true)

-- Getting a namespace of this name was allowed to the subject at some time.
abbrev pub WasAllowed : {r : Resources} {m : Machine} → Reaches r m → Subject → String → Type 0
WasAllowed {m = m} h s a =
    (past : Resources) × Held m h past
    × ((ns : Namespace) × (ns.meta.name ≡ a) × (may_get (environment past) s ns ≡ true))

-- The data names a namespace under a subject.
abbrev pub holds : AccessData → Subject → String → Bool
holds c s a = contains (map name_of (elements (slice_at s c))) a

-- A round adds the namespace to those of the subjects that may get it.
holds-after_round :
    (r : Resources) (ns : Namespace) (c : AccessData) (s : Subject) (a : String)
    → holds (after_round r ns c) s a
      ≡ (holds c s a || ns.meta.name == a && may_get (environment r) s ns)
unfolding after_round accessible
holds-after_round r ns c s a =
    let env = environment r in
    ap (λ l. contains (map name_of l) a)
      (sym (append-nil _) ∙ store_access-accessible env ns [] c s)
    ∙ rw
        (
          map-append,
          contains-append (map name_of (elements (slice_at s c))),
          contains-accessible env s a (ns ∷ []),
        )
        (ground arith)

from_round :
    (r : Resources) (ns : Namespace) (c : AccessData) (s : Subject) (a : String)
    → holds (after_round r ns c) s a ≡ true
    → (holds c s a ≡ true) ⊎ ((ns.meta.name ≡ a) × (may_get (environment r) s ns ≡ true))
from_round r ns c s a t =
    let either = sym (holds-after_round r ns c s a) ∙ t in
    elim (Bool-cases (holds c s a)) [
      | inl old ↦ inl old
      | inr new ↦ elim (string_eq.dec ns.meta.name a) [
        | yes same ↦ inr (same, ground (arith, either))
        | no other ↦ absurd (ground (arith, either))
      ]
    ]

-- What is known of data, of a run and of the cache in a state that was reached.
DataWas : {r : Resources} {m : Machine} → Reaches r m → AccessData → Type 0
DataWas h c = (s : Subject) (a : String) → holds c s a ≡ true → WasStored h a × WasAllowed h s a

PhaseWas : {r : Resources} {m : Machine} → Reaches r m → Phase → Type 0
PhaseWas h outside = Unit
PhaseWas h listing = Unit
PhaseWas h (rounds nn c) =
    DataWas h c × ((a : String) → contains (map name_of nn) a ≡ true → WasStored h a)

CacheWas : {r : Resources} {m : Machine} → Reaches r m → Option AccessData → Type 0
CacheWas h none = Unit
CacheWas h (some c) = DataWas h c

module _ {r : Resources} {m n : Machine} (h : Reaches r m) (e : Move m n) where
  DataWas-next : (c : AccessData) → DataWas h c → DataWas (next h e) c
  unfolding DataWas
  DataWas-next c d s a t =
      let ((p, was, stored), (q, has, allowed)) = d s a t in
      ((p, earlier e was, stored), (q, earlier e has, allowed))

  PhaseWas-next : (phase : Phase) → PhaseWas h phase → PhaseWas (next h e) phase
  unfolding PhaseWas
  PhaseWas-next outside k = tt
  PhaseWas-next listing k = tt
  PhaseWas-next (rounds nn c) (d, l) =
      (DataWas-next c d, λ a t. let (p, was, stored) = l a t in (p, earlier e was, stored))

  CacheWas-next : (cached : Option AccessData) → CacheWas h cached → CacheWas (next h e) cached
  unfolding CacheWas
  CacheWas-next none k = tt
  CacheWas-next (some c) d = DataWas-next c d

  after_round-DataWas :
      (ns : Namespace) (nn : List Namespace) (c : AccessData)
      → PhaseWas h (rounds (ns ∷ nn) c)
      → PhaseWas (next h e) (rounds nn (after_round m.resources ns c))
  unfolding PhaseWas DataWas contains
  after_round-DataWas ns nn c (d, l) = (
    λ s a t. elim (from_round m.resources ns c s a t) [
      | inl old ↦ DataWas-next c d s a old
      | inr (same, may) ↦
          let (p, was, stored) = l a (ground arith) in
          ((p, earlier e was, stored), (m.resources, earlier e (now h), (ns, same, may)))
    ],
    λ a t. let (p, was, stored) = l a (ground arith) in (p, earlier e was, stored),
  )

Was : {r : Resources} {m : Machine} → Reaches r m → Type 0
Was {m = m} h = CacheWas h m.cache.cached × PhaseWas h m.phase

Move-Was : {r : Resources} {m n : Machine} (h : Reaches r m) (e : Move m n) → Was h → Was (next h e)
unfolding Was restock CacheWas PhaseWas DataWas contains slice_at lookup
Move-Was h (change r) (k, l) = (CacheWas-next h (change r) _ k, PhaseWas-next h (change r) _ l)
Move-Was h (deliver i e) (k, l) =
    (CacheWas-next h (deliver i e) _ k, PhaseWas-next h (deliver i e) _ l)
Move-Was h (tick e) (k, l) = (CacheWas-next h (tick e) _ k, PhaseWas-next h (tick e) _ l)
Move-Was h (elsewhere e) (k, l) =
    (CacheWas-next h (elsewhere e) _ k, PhaseWas-next h (elsewhere e) _ l)
Move-Was h (begin e) (k, l) = (CacheWas-next h (begin e) _ k, tt)
Move-Was h (list_failed e f g) (k, l) = (CacheWas-next h (list_failed e f g) _ k, tt)
Move-Was h (interrupted e ns nn c f g) (k, l) =
    (CacheWas-next h (interrupted e ns nn c f g) _ k, tt)
Move-Was {m = m} h (list_done e) (k, l) = (
  CacheWas-next h (list_done e) _ k,
  ((λ s a t. absurd (cc)), λ a t. (m.resources, earlier (list_done e) (now h), t)),
)
Move-Was h (round ns nn c e w) (k, l) = (
  CacheWas-next h (round ns nn c e w) _ k,
  after_round-DataWas h (round ns nn c e w) ns nn c (subst (PhaseWas h) e l),
)
Move-Was h (restocked c e g) (k, l) =
    (DataWas-next h (restocked c e g) c (subst (PhaseWas h) e l).0, tt)

Reaches-Was : {r : Resources} {m : Machine} (h : Reaches r m) → Was h
unfolding Was new_atomic_list_restock_access_cache new_atomic_list_restock_cache CacheWas PhaseWas
Reaches-Was here = (tt, tt)
Reaches-Was (next h e) = Move-Was h e (Reaches-Was h)

-- Whatever the cache holds under a subject was stored at some time, and allowed to it at some time.
pub Reaches-CacheWas :
    {r : Resources} {m : Machine} (h : Reaches r m) (c : AccessData) (s : Subject) (a : String)
    → m.cache.cached ≡ some c
    → holds c s a ≡ true
    → WasStored h a × WasAllowed h s a
unfolding Was DataWas CacheWas
Reaches-CacheWas h c s a cached t = subst (CacheWas h) cached (Reaches-Was h).0 s a t
