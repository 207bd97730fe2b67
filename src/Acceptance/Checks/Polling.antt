-- ===== src/Acceptance/Checks/Polling.antt =====
-- The steps of acceptance/pkg/suite/steps.go that ask until an answer is the expected one, or time is
-- up. `wait.PollUntilContextTimeout` is a parameter.
use namespace_lister.Base.{
  ℕ, ◌<◌, ◌≡◌, ◌↔◌, refl, ap, arith, String, Bool, true, false, Option, none, some, Slice,
}
use namespace_lister.Kube.{Namespace}
use namespace_lister.Acceptance.{Context, run_id, namespaces_of}
use namespace_lister.Acceptance.Checks.{
  ClientError, retrieves_namespaces, retrieves_no_namespaces, retrieves_only_accessible,
}

-- A client of a user: the error of building it, or its answer to each of the attempts.
pub data PolledClient : Type 0 where
  not_built : String → PolledClient
  answering : (ℕ → Slice Namespace × Option ClientError) → PolledClient

-- `PollUntilContextTimeout` with the timeout of a minute: whether the first attempt is made at once,
-- the condition at each attempt, and the error that is returned.
abbrev pub Poll : Type 0
Poll = (immediate : Bool) → (ℕ → Bool) → Option String

-- It returns nil exactly if the condition holds at one of the attempts that there is time for.
abbrev pub IsPolling : Poll → (Bool → ℕ) → Type 0
IsPolling poll attempts =
    (immediate : Bool) (condition : ℕ → Bool)
    → (poll immediate condition ≡ none)
      ↔ ((i : ℕ) × (i < attempts immediate) × (condition i ≡ true))

-- An error of a step: of building the client, or of the polling.
pub data PollError : Type 0 where
  no_client timed_out : String → PollError

-- The error of a step that polls a condition on the client's answers; the context is returned as it is.
unfoldable pub poll_answers :
    Poll
    → (immediate : Bool) → (Slice Namespace → Option ClientError → Bool)
    → PolledClient
    → Option PollError
poll_answers poll immediate condition (not_built e) = some (no_client e)
poll_answers poll immediate condition (answering answer) =
    elim (poll immediate (λ i. condition (answer i).0 (answer i).1)) [
      | none ↦ none
      | some e ↦ some (timed_out e)
    ]

module _ {Builder TlsConfig : Type 0} (poll : Poll) where
  -- `TheUserRetrievesNamespaces`
  unfoldable pub the_user_retrieves_namespaces :
      PolledClient → Context Builder TlsConfig → Context Builder TlsConfig × Option PollError
  unfolding poll_answers retrieves_namespaces
  the_user_retrieves_namespaces cli ctx = (ctx, poll_answers poll false retrieves_namespaces cli)

  -- `TheUserRetrievesNoNamespaces`
  unfoldable pub the_user_retrieves_no_namespaces :
      PolledClient → Context Builder TlsConfig → Context Builder TlsConfig × Option PollError
  unfolding poll_answers retrieves_no_namespaces
  the_user_retrieves_no_namespaces cli ctx =
      (ctx, poll_answers poll false retrieves_no_namespaces cli)

  -- `TheUserCanRetrieveOnlyTheNamespacesTheyHaveAccessTo`: the first attempt is made at once.
  unfoldable pub the_user_can_retrieve_only :
      PolledClient → Context Builder TlsConfig → Context Builder TlsConfig × Option PollError
  unfolding poll_answers retrieves_only_accessible run_id namespaces_of
  the_user_can_retrieve_only cli ctx =
      (ctx, poll_answers poll true (retrieves_only_accessible (run_id ctx) (namespaces_of ctx)) cli)

-- Whether an attempt is made of which the answer is as expected.
abbrev Succeeds : (Slice Namespace → Option ClientError → Bool) → ℕ → PolledClient → Type 0
Succeeds condition limit (not_built e) = ⊥
Succeeds condition limit (answering answer) =
    (i : ℕ) × (i < limit) × (condition (answer i).0 (answer i).1 ≡ true)

poll_answers_iff :
    (poll : Poll) (attempts : Bool → ℕ)
    → IsPolling poll attempts
    → (immediate : Bool) (condition : Slice Namespace → Option ClientError → Bool)
      (cli : PolledClient)
    → (poll_answers poll immediate condition cli ≡ none)
      ↔ Succeeds condition (attempts immediate) cli
unfolding poll_answers
poll_answers_iff poll attempts p immediate condition (not_built e) =
    ((λ h. absurd (cc h)), (λ h. absurd h))
poll_answers_iff poll attempts p immediate condition (answering answer) =
    let (to, from) = p immediate (λ i. condition (answer i).0 (answer i).1) in
    (λ h. to (ground (arith, h)), λ k. rw (poll_answers, from k) refl)

-- A step that polls passes exactly if the client can be built and one of its answers, while there is
-- time, is as the step expects; it leaves the context as it is.
polled_iff :
    {Builder TlsConfig : Type 0} (poll : Poll) (attempts : Bool → ℕ)
    → IsPolling poll attempts
    → (cli : PolledClient) (ctx : Context Builder TlsConfig)
    → ((the_user_retrieves_namespaces poll cli ctx ≡ (ctx, none))
        ↔ Succeeds retrieves_namespaces (attempts false) cli)
      × ((the_user_retrieves_no_namespaces poll cli ctx ≡ (ctx, none))
          ↔ Succeeds retrieves_no_namespaces (attempts false) cli)
      × ((the_user_can_retrieve_only poll cli ctx ≡ (ctx, none))
          ↔ Succeeds
              (retrieves_only_accessible (run_id ctx) (namespaces_of ctx))
              (attempts true)
              cli)
unfolding the_user_retrieves_namespaces the_user_retrieves_no_namespaces the_user_can_retrieve_only
polled_iff poll attempts p cli ctx =
    let (a, b) = poll_answers_iff poll attempts p false retrieves_namespaces cli in
    let (c, d) = poll_answers_iff poll attempts p false retrieves_no_namespaces cli in
    let (e, f) =
      poll_answers_iff poll attempts p true
        (retrieves_only_accessible (run_id ctx) (namespaces_of ctx)) cli in
    (
      ((λ h. a (ap (λ x. x.1) h)), (λ h. ap (λ x. (ctx, x)) (b h))),
      ((λ h. c (ap (λ x. x.1) h)), (λ h. ap (λ x. (ctx, x)) (d h))),
      ((λ h. e (ap (λ x. x.1) h)), (λ h. ap (λ x. (ctx, x)) (f h))),
    )
