-- ===== src/Acceptance/Steps/Prepared.antt =====
-- What the steps on access to namespaces leave behind.
use namespace_lister.Base.{
  All, ◌≢◌, ℕ, zero, suc, ◌<◌, ◌≡◌, refl, ap, ◌∙◌, sym, String, String_dec, eq_refl, ◌⊎◌,
  Option-cases, inl, inr, false, Option, none, some, List, [], ◌∷◌, ◌++◌, length, map, contains,
  string_eq, arith, IsNodup, Slice, elements, push,
}
use mathlib.Core.List.{append-nil, append_assoc}
use text.Mathlib.TextLemmas.{append_cancel_left, append-eq-nil_iff}
use namespace_lister.Base.Dict.{lookup}
use namespace_lister.Labels.{map_or_new}
use namespace_lister.Kube.{Namespace, Subject}
use namespace_lister.Base.Decimal.{itoa-inj, replace_all}
use namespace_lister.Acceptance.{Context, value, with_namespaces, namespaces_of, run_id}
use namespace_lister.Acceptance.Checks.{run_items}
use namespace_lister.Acceptance.Steps.{
  Cluster, Created, created_namespace, created_role_binding, test_namespace, granted_name, granting,
  create, create_granted, subject_has_access_to_n_namespaces,
}

abbrev names : List Namespace → List String
names = map (λ ns. ns.meta.name)

-- The namespaces that the step names from `i` on.
abbrev prepared : String → Subject → ℕ → ℕ → List Namespace
prepared run subject i zero = []
prepared run subject i (suc number) =
    test_namespace run (granted_name run subject i) ∷ prepared run subject (suc i) number

-- Namespaces, each followed by the binding of a subject in it.
abbrev pub with_grants : Subject → List Namespace → List Created
with_grants subject [] = []
with_grants subject (ns ∷ nn) =
    created_namespace ns
    ∷ created_role_binding (granting subject ns.meta.name)
    ∷ with_grants subject nn

granted_name-inj :
    (run : String) (subject : Subject) {i j : ℕ}
    → granted_name run subject i ≡ granted_name run subject j
    → i ≡ j
unfolding granted_name
granted_name-inj run subject h = itoa-inj (
    append_cancel_left "-" _ _ (
      append_cancel_left (replace_all 58 "-" subject.name) _ _ (
        append_cancel_left "-" _ _ (append_cancel_left run _ _ (append_cancel_left "run-" _ _ h)))))

module _ (run : String) (subject : Subject) where
  prepared-later :
      (i j number : ℕ)
      → i < j
      → contains (names (prepared run subject j number)) (granted_name run subject i) ≡ false
  unfolding contains test_namespace
  prepared-later i j zero h = refl
  prepared-later i j (suc number) h = ground (
    arith,
    granted_name-inj run subject {i = i} {j = j},
    prepared-later i (suc j) number (omega arith),
  )

  -- No namespace is made without a name.
  prepared-named : (i number : ℕ) → contains (names (prepared run subject i number)) "" ≡ false
  unfolding contains test_namespace granted_name
  prepared-named i zero = refl
  prepared-named i (suc number) =
      let named : granted_name run subject i ≢ "" = λ h. absurd (cc (append-eq-nil_iff.0 h).0) in
      ground (arith, named, prepared-named (suc i) number)

  prepared-IsNodup : (i number : ℕ) → IsNodup (names (prepared run subject i number))
  unfolding test_namespace
  prepared-IsNodup i zero = tt
  prepared-IsNodup i (suc number) =
      (prepared-later i (suc i) number (omega arith), prepared-IsNodup (suc i) number)

  length-prepared : (i number : ℕ) → length (prepared run subject i number) ≡ number
  length-prepared i zero = refl
  length-prepared i (suc number) = omega (arith, length-prepared (suc i) number)

  pub test_run :
      (name : String)
      → (let labels = (test_namespace run name).meta.labels in
          lookup "namespace-lister/test-run" (map_or_new labels))
        ≡ some run
  unfolding test_namespace lookup String_dec string_eq
  test_run name = refl

  prepared-test_namespace :
      (i number : ℕ)
      → All (λ ns. ns ≡ test_namespace run ns.meta.name) (prepared run subject i number)
  unfolding test_namespace
  prepared-test_namespace i zero = tt
  prepared-test_namespace i (suc number) = (refl, prepared-test_namespace (suc i) number)

  run_items-prepared :
      (i number : ℕ) → run_items run (prepared run subject i number) ≡ prepared run subject i number
  unfolding run_items
  run_items-prepared i zero = refl
  run_items-prepared i (suc number) =
      rw (test_run (granted_name run subject i), eq_refl run)
        (rw (run_items-prepared (suc i) number) refl)

  module _ (cluster : Cluster) where
    create_cases :
        (o : Created) (made : List Created)
        → (create cluster o made ≡ (made ++ o ∷ [], none))
          ⊎ ((e : String) × (create cluster o made ≡ (made, some e)))
    unfolding create
    create_cases o made = elim (Option-cases (cluster.create_error made o)) [
      | inl fine ↦ inl (rw (create, fine) refl)
      | inr (e, failed) ↦ inr (e, rw (create, failed) refl)
    ]

    create_granted-prepared :
        (number i : ℕ) (nn : Slice Namespace) (made : List Created)
        → let r = create_granted cluster subject run number i nn made in
          r.2 ≡ none
          → (elements r.0 ≡ elements nn ++ prepared run subject i number)
            × (r.1 ≡ made ++ with_grants subject (prepared run subject i number))
    unfolding create_granted
    create_granted-prepared zero i nn made = λ h. (sym (append-nil _), sym (append-nil _))
    create_granted-prepared (suc number) i nn made =
        let name = granted_name run subject i in
        let n : Namespace = test_namespace run name in
        let b = created_role_binding (granting subject name) in
        let made' = made ++ created_namespace n ∷ [] in
        let more = prepared run subject (suc i) number in
        elim (create_cases (created_namespace n) made) [
          | inr (e, failed) ↦ rw (create_granted, failed) (λ h. absurd (cc h))
          | inl fine ↦ elim (create_cases b made') [
            | inr (e, failed) ↦ rw (create_granted, fine, failed) (λ h. absurd (cc h))
            | inl bound ↦
                rw (create_granted, fine, bound)
                  (λ h.
                    let (listed, created) =
                      create_granted-prepared number (suc i) (push nn n) (made' ++ b ∷ []) h in
                    (
                      listed ∙ append_assoc (elements nn) (n ∷ []) more,
                      created
                          ∙ append_assoc made' (b ∷ []) (with_grants subject more)
                          ∙ append_assoc made (created_namespace n ∷ [])
                              (b ∷ with_grants subject more),
                    ))
          ]
        ]

module _ {Builder TlsConfig : Type 0} where
  -- A step that fails leaves the context as it is. One that succeeds adds namespaces of the tests to it
  -- and changes no run, as many as are asked for, with different names, none empty, and the label of
  -- the run, and has created these and in each a binding of the subject, and nothing else.
  abbrev pub Prepares :
      Subject
      → ℕ
      → Context Builder TlsConfig
      → List Created
      → Context Builder TlsConfig × List Created × Option String
      → Type 0
  Prepares subject number ctx made (ctx', made', some e) = ctx' ≡ ctx
  Prepares subject number ctx made (ctx', made', none) =
      (new : List Namespace) × (elements (namespaces_of ctx') ≡ elements (namespaces_of ctx) ++ new)
      × (length new ≡ number)
      × IsNodup (names new)
      × (contains (names new) "" ≡ false)
      × All (λ ns. ns ≡ test_namespace (run_id ctx) ns.meta.name) new
      × (run_id ctx' ≡ run_id ctx)
      × (run_items (run_id ctx) new ≡ new)
      × (made' ≡ made ++ with_grants subject new)

  namespaces_of-with_namespaces :
      (nn : Slice Namespace) (ctx : Context Builder TlsConfig)
      → namespaces_of (with_namespaces nn ctx) ≡ nn
  unfolding namespaces_of with_namespaces value String_dec string_eq
  namespaces_of-with_namespaces nn ctx = refl

  run_id-with_namespaces :
      (nn : Slice Namespace) (ctx : Context Builder TlsConfig)
      → run_id (with_namespaces nn ctx) ≡ run_id ctx
  unfolding run_id with_namespaces value String_dec string_eq
  run_id-with_namespaces nn ctx = refl

  -- Whatever the cluster answers, the step that gives a subject access to namespaces either fails and
  -- leaves the context as it is, or adds to the context's namespaces as many new ones as are asked
  -- for: these are namespaces of the tests with different names, none empty, and carry the label of the
  -- test's run, and the step has created each of them, and after it a binding of the subject in it to
  -- the cluster role that grants get, and nothing else.
  pub subject_has_access_to_n_namespaces-Prepares :
      (cluster : Cluster) (subject : Subject) (number : ℕ) (ctx : Context Builder TlsConfig)
      (made : List Created)
      → Prepares subject number ctx made
          (subject_has_access_to_n_namespaces cluster subject number ctx made)
  unfolding subject_has_access_to_n_namespaces
  subject_has_access_to_n_namespaces-Prepares cluster subject number ctx made =
      let run = run_id ctx in
      let r = create_granted cluster subject run number 0 (namespaces_of ctx) made in
      elim (Option-cases cluster.build_error) [
        | inr (e, broken) ↦ rw (subject_has_access_to_n_namespaces, broken) refl
        | inl built ↦ elim (Option-cases r.2) [
          | inr (e, failed) ↦ rw (subject_has_access_to_n_namespaces, built, failed) refl
          | inl fine ↦
              let (listed, created) =
                create_granted-prepared run subject cluster number 0 (namespaces_of ctx) made
                  fine in
              rw (subject_has_access_to_n_namespaces, built, fine)
                (
                  prepared run subject 0 number,
                  ap elements (namespaces_of-with_namespaces r.0 ctx) ∙ listed,
                  length-prepared run subject 0 number,
                  prepared-IsNodup run subject 0 number,
                  prepared-named run subject 0 number,
                  prepared-test_namespace run subject 0 number,
                  run_id-with_namespaces r.0 ctx,
                  run_items-prepared run subject 0 number,
                  created,
                )
        ]
      ]
