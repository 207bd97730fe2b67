-- ===== src/Base/Order.antt =====
-- Go's three-way comparisons as total orders. `strings.Compare` is the native `compare`.
use Prim.Native.Nat.{compare as compare_ℕ}
use Prim.Native.String.compare as compare_str
use Prim.Native.String.{compare, then}
use text.Mathlib.TextEquality.{path_by_compare}
use text.Mathlib.TextPositions.{compare_refl}
use namespace_lister.Base.Core.{String, code, ℕ, Ordering, ◌≡◌, refl, ap, arith}

abbrev pub opposite : Ordering → Ordering
opposite Ordering.lt = Ordering.gt
opposite Ordering.eq = Ordering.eq
opposite Ordering.gt = Ordering.lt

-- A comparison by which a sort puts equivalent values next to each other.
pub record IsWeakOrder {ℓ} {A : Type ℓ} (cmp : A → A → Ordering) : Type ℓ where
  pub reflexive : (a : A) → cmp a a ≡ Ordering.eq
  pub flip : (a b : A) → cmp b a ≡ opposite (cmp a b)
  pub trans : (a b c : A) → cmp a b ≡ Ordering.lt → cmp b c ≡ Ordering.lt → cmp a c ≡ Ordering.lt
  pub congr : (a b c : A) → cmp a b ≡ Ordering.eq → cmp a c ≡ cmp b c

-- It finds only equal values equivalent.
pub record IsOrder {ℓ} {A : Type ℓ} (cmp : A → A → Ordering) : Type ℓ where
  pub weak : IsWeakOrder cmp
  pub eq_of : (a b : A) → cmp a b ≡ Ordering.eq → a ≡ b

compare_ℕ-flip : (a b : ℕ) → compare_ℕ b a ≡ opposite (compare_ℕ a b)
compare_ℕ-flip a b = ground arith

then-flip : (o p : Ordering) → then (opposite o) (opposite p) ≡ opposite (then o p)
then-flip Ordering.lt p = refl
then-flip Ordering.eq p = refl
then-flip Ordering.gt p = refl

-- Transitivity of a lexicographic comparison, from that of its two parts.
then_trans :
    (o₁ o₂ o₃ p₁ p₂ p₃ : Ordering)
    → (o₁ ≡ Ordering.lt → o₂ ≡ Ordering.lt → o₃ ≡ Ordering.lt)
    → (o₁ ≡ Ordering.eq → o₃ ≡ o₂)
    → (o₂ ≡ Ordering.eq → o₃ ≡ o₁)
    → (p₁ ≡ Ordering.lt → p₂ ≡ Ordering.lt → p₃ ≡ Ordering.lt)
    → then o₁ p₁ ≡ Ordering.lt
    → then o₂ p₂ ≡ Ordering.lt
    → then o₃ p₃ ≡ Ordering.lt
then_trans o₁ o₂ o₃ p₁ p₂ p₃ f g h k p q = ground arith

compare-flip : (s t : String) → compare t s ≡ opposite (compare s t)
compare-flip String.[] String.[] = rw compare_str.nil-nil
compare-flip String.[] (String.◌∷◌ d t) = rw (compare_str.nil-cons, compare_str.cons-nil)
compare-flip (String.◌∷◌ c s) String.[] = rw (compare_str.nil-cons, compare_str.cons-nil)
compare-flip (String.◌∷◌ c s) (String.◌∷◌ d t) =
    rw (compare_str.cons-cons c d s t, compare_str.cons-cons d c t s)
      (rw (compare_ℕ-flip (code c) (code d), compare-flip s t) (then-flip _ _))

compare_trans :
    (s t u : String)
    → compare s t ≡ Ordering.lt
    → compare t u ≡ Ordering.lt
    → compare s u ≡ Ordering.lt
compare_trans String.[] String.[] u p q = cc
compare_trans (String.◌∷◌ c s) String.[] u p q = cc (compare_str.cons-nil c s)
compare_trans s (String.◌∷◌ d t) String.[] p q = cc (compare_str.cons-nil d t)
compare_trans String.[] (String.◌∷◌ d t) (String.◌∷◌ e u) p q = compare_str.nil-cons e u
compare_trans (String.◌∷◌ c s) (String.◌∷◌ d t) (String.◌∷◌ e u) p q = rw compare_str.cons-cons (
    then_trans (compare_ℕ (code c) (code d)) (compare_ℕ (code d) (code e)) _ (compare s t)
      (compare t u) _ (ground arith) (ground arith) (ground arith) (compare_trans s t u)
      (rw compare_str.cons-cons at p) (rw compare_str.cons-cons at q))

compare-congr : (s t u : String) → compare s t ≡ Ordering.eq → compare s u ≡ compare t u
compare-congr s t u h = ap (λ v. compare v u) (path_by_compare s t h)

pub compare-IsOrder : IsOrder compare
compare-IsOrder = record {
  weak = record {
    reflexive = compare_refl;
    flip = compare-flip;
    trans = compare_trans;
    congr = compare-congr;
  };
  eq_of = path_by_compare;
}

-- Comparing by a part, and by one comparison and then another.
module _ {ℓ κ} {A : Type ℓ} {B : Type κ} where
  pub on-IsWeakOrder :
      (f : A → B) (cmp : B → B → Ordering) → IsWeakOrder cmp → IsWeakOrder (λ a b. cmp (f a) (f b))
  on-IsWeakOrder f cmp w = record {
    reflexive = λ a. w.reflexive (f a);
    flip = λ a b. w.flip (f a) (f b);
    trans = λ a b c. w.trans (f a) (f b) (f c);
    congr = λ a b c. w.congr (f a) (f b) (f c);
  }

module _ {ℓ} {A : Type ℓ} (p q : A → A → Ordering) (u : IsWeakOrder p) (v : IsWeakOrder q) where
  lex-congr :
      (a b c : A) → then (p a b) (q a b) ≡ Ordering.eq → then (p a c) (q a c) ≡ then (p b c) (q b c)
  lex-congr a b c h = ground (arith, u.congr a b c, v.congr a b c)

  lex_trans :
      (a b c : A)
      → then (p a b) (q a b) ≡ Ordering.lt
      → then (p b c) (q b c) ≡ Ordering.lt
      → then (p a c) (q a c) ≡ Ordering.lt
  lex_trans a b c =
      then_trans (p a b) (p b c) (p a c) (q a b) (q b c) (q a c) (u.trans a b c) (u.congr a b c)
        (λ h. cc (u.flip c a, u.flip b a, u.congr b c a h)) (v.trans a b c)

  pub lex-IsWeakOrder : IsWeakOrder (λ a b. then (p a b) (q a b))
  lex-IsWeakOrder = record {
    reflexive = λ a. rw u.reflexive (v.reflexive a);
    flip = λ a b. rw (u.flip a b, v.flip a b) (then-flip _ _);
    trans = lex_trans;
    congr = lex-congr;
  }
