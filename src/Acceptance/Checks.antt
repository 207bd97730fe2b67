-- ===== src/Acceptance/Checks.antt =====
-- acceptance/pkg/suite: the steps that look at what a client is answered.
pub mod Accessible
pub mod Service
pub mod Polling
use namespace_lister.Base.{
  ℕ, zero, suc, String, Bool, true, false, not, ◌||◌, Option, none, some, List, [], ◌∷◌, length,
  if◌then◌else◌, ◌==◌, string_eq, nat_eq, Eq, Slice, elements, any, filter,
}
use namespace_lister.Base.Dict.{lookup}
use namespace_lister.Labels.{map_or_new}
use namespace_lister.Kube.{Namespace}

-- The error of a client's `List` or `Get`, if it is that the request is unauthorized, or another.
pub data ClientError : Type 0 where
  unauthorized : ClientError
  other_error : String → ClientError

-- The client of a user: the error of building it, or what `List` fills in and returns.
pub data UserClient : Type 0 where
  not_built : String → UserClient
  answers : Slice Namespace → Option ClientError → UserClient

-- The errors that the steps return.
pub data StepError : Type 0 where
  build_failed : String → StepError
  expected_unauthorized_got : ClientError → StepError
  expected_unauthorized_listed : ℕ → StepError
  expected_success : ClientError → StepError
  expected_empty : ℕ → StepError
  error_listing : ClientError → StepError
  empty_name : ℕ → StepError
  no_metrics_service : ClientError → StepError
  no_metrics_port : StepError

-- `theUserRequestReturnsUnauthorized`
unfoldable pub user_request_returns_unauthorized : UserClient → Option StepError
user_request_returns_unauthorized (not_built e) = some (build_failed e)
user_request_returns_unauthorized (answers nn (some unauthorized)) = none
user_request_returns_unauthorized (answers nn (some (other_error e))) =
    some (expected_unauthorized_got (other_error e))
user_request_returns_unauthorized (answers nn none) =
    some (expected_unauthorized_listed (length (elements nn)))

-- `theUserGetsAnEmptyNamespaceList`
unfoldable pub user_gets_an_empty_namespace_list : UserClient → Option StepError
user_gets_an_empty_namespace_list (not_built e) = some (build_failed e)
user_gets_an_empty_namespace_list (answers nn (some e)) = some (expected_success e)
user_gets_an_empty_namespace_list (answers nn none) =
    if not (length (elements nn) == 0) then some (expected_empty (length (elements nn))) else none

-- the loop of `theResponseIsAValidNamespaceList` from index `i`
unfoldable pub first_unnamed : ℕ → List Namespace → Option StepError
first_unnamed i [] = none
first_unnamed i (item ∷ items) =
    let rest = first_unnamed (suc i) items in
    if item.meta.name == "" then some (empty_name i) else rest

-- `theResponseIsAValidNamespaceList`
unfoldable pub response_is_a_valid_namespace_list : UserClient → Option StepError
unfolding first_unnamed
response_is_a_valid_namespace_list (not_built e) = some (build_failed e)
response_is_a_valid_namespace_list (answers nn (some e)) = some (error_listing e)
response_is_a_valid_namespace_list (answers nn none) = first_unnamed 0 (elements nn)

-- the condition that `TheUserRetrievesNamespaces` polls
unfoldable pub retrieves_namespaces : Slice Namespace → Option ClientError → Bool
retrieves_namespaces nn (some e) = false
retrieves_namespaces nn none = not (length (elements nn) == 0)

-- the condition that `TheUserRetrievesNoNamespaces` polls
unfoldable pub retrieves_no_namespaces : Slice Namespace → Option ClientError → Bool
retrieves_no_namespaces nn (some e) = false
retrieves_no_namespaces nn none = length (elements nn) == 0

-- `n.Labels[key]`
abbrev pub or_empty_text : Option String → String
or_empty_text none = ""
or_empty_text (some s) = s

-- the loop that filters to the current test run
unfoldable pub run_items : String → List Namespace → List Namespace
run_items run items =
    filter
      (λ n. or_empty_text (lookup "namespace-lister/test-run" (map_or_new n.meta.labels)) == run)
      items

-- the loop that looks for the expected namespaces
unfoldable pub all_found : List Namespace → List Namespace → Bool
all_found [] items = true
all_found (en ∷ enn) items =
    let rest = all_found enn items in
    if not (any (λ an. en.meta.name == an.meta.name) items) then false else rest

-- the condition that `TheUserCanRetrieveOnlyTheNamespacesTheyHaveAccessTo` polls, for the run and the
-- namespaces in the context
unfoldable pub retrieves_only_accessible :
    String → Slice Namespace → Slice Namespace → Option ClientError → Bool
unfolding run_items all_found
retrieves_only_accessible run enn ann (some e) = false
retrieves_only_accessible run enn ann none =
    let items = run_items run (elements ann) in
    if not (length (elements enn) == length items) then false else all_found (elements enn) items

-- the loop over the ports of the service
unfoldable pub exposes_metrics : List ℕ → Bool
exposes_metrics [] = false
exposes_metrics (p ∷ ports) = let rest = exposes_metrics ports in if p == 9100 then true else rest

-- `metricsServiceIsAvailable`: the error of building the client, and the ports of the service or the
-- error of `Get`
unfoldable pub metrics_service_is_available :
    Option String → List ℕ × Option ClientError → Option StepError
unfolding exposes_metrics
metrics_service_is_available (some e) service = some (build_failed e)
metrics_service_is_available none (ports, some e) = some (no_metrics_service e)
metrics_service_is_available none (ports, none) =
    if not (exposes_metrics ports) then some no_metrics_port else none
