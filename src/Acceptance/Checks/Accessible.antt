-- ===== src/Acceptance/Checks/Accessible.antt =====
-- What the check of the acceptance tests that a user retrieves the accessible namespaces only means.
use namespace_lister.Base.{
  ◌≡◌, refl, sym, ◌∙◌, ◌↔◌, String, true, none, List, [], ◌∷◌, length, map, contains, any, ◌==◌,
  string_eq, nat_eq, arith, IsNodup, Slice, elements,
}
use namespace_lister.Base.Pigeonhole.{IsWithin, IsWithin-sym, length-IsWithin}
use namespace_lister.Kube.{Namespace}
use namespace_lister.Acceptance.Checks.{run_items, all_found, retrieves_only_accessible}

abbrev names : List Namespace → List String
names = map (λ ns. ns.meta.name)

length-names : (nn : List Namespace) → length (names nn) ≡ length nn
length-names [] = refl
length-names (ns ∷ nn) = omega (arith, length-names nn)

any-names :
    (n : String) (nn : List Namespace) → any (λ an. n == an.meta.name) nn ≡ contains (names nn) n
unfolding contains
any-names n [] = refl
any-names n (ns ∷ nn) = ground (arith, any-names n nn)

all_found_iff :
    (enn items : List Namespace) → (all_found enn items ≡ true) ↔ IsWithin (names enn) (names items)
unfolding all_found contains
all_found_iff [] items = (λ h a held. absurd (cc), λ h. refl)
all_found_iff (en ∷ enn) items =
    let (to, from) = all_found_iff enn items in
    (
      λ h a held. ground (arith, any-names en.meta.name items, to (ground arith) a),
      λ h.
          let first : contains (names items) en.meta.name ≡ true = h en.meta.name (ground arith) in
          let rest = from (λ a held. h a (ground arith)) in
          ground (arith, any-names en.meta.name items),
    )

-- The check compares the numbers and looks for each expected namespace.
retrieves_only_accessible-parts :
    (run : String) (enn ann : Slice Namespace)
    → (retrieves_only_accessible run enn ann none ≡ true) ↔ (
        (length (elements enn) ≡ length (run_items run (elements ann)))
        × (all_found (elements enn) (run_items run (elements ann)) ≡ true))
unfolding retrieves_only_accessible
retrieves_only_accessible-parts run enn ann = ground arith

-- The check passes exactly if the user retrieves the expected namespaces and no others of the test's
-- run: where neither the expected namespaces nor the retrieved ones of the run share a name, it passes
-- if and only if the same names are expected and retrieved.
pub retrieves_only_accessible_iff :
    (run : String) (enn ann : Slice Namespace)
    → IsNodup (names (elements enn))
    → IsNodup (names (run_items run (elements ann)))
    → (retrieves_only_accessible run enn ann none ≡ true) ↔ (
        (a : String)
        → contains (names (run_items run (elements ann))) a ≡ contains (names (elements enn)) a)
retrieves_only_accessible_iff run enn ann fresh fresh' =
    let items = run_items run (elements ann) in
    let (open_up, close_up) = retrieves_only_accessible-parts run enn ann in
    let (to, from) = all_found_iff (elements enn) items in
    (
      λ h a.
          let (same, found) = open_up h in
          let within = to found in
          let back =
            IsWithin-sym (names (elements enn)) (names items) fresh within
              (length-names (elements enn) ∙ same ∙ sym (length-names items)) in
          ground (arith, within a, back a),
      λ h.
          let within : IsWithin (names (elements enn)) (names items) = λ a held. h a ∙ held in
          let back : IsWithin (names items) (names (elements enn)) = λ a held. sym (h a) ∙ held in
          close_up (
            omega (
              arith,
              length-names (elements enn),
              length-names items,
              length-IsWithin (names (elements enn)) (names items) fresh within,
              length-IsWithin (names items) (names (elements enn)) fresh' back,
            ),
            from within,
          ),
    )
