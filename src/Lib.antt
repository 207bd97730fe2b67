-- ===== src/Lib.antt =====
-- A model of the namespace lister, the HTTP service that answers a user with the list of the
-- namespaces that the user may get.
--
-- The program's parts. Informers keep roles, bindings and namespaces in a resource cache, trimmed by
-- the functions of internal/resourcecache/internal/transform/transformfuncs.go. `synch` of
-- pkg/auth/cache/synchronized_access_cache.go asks an RBAC evaluator, for each namespace, for the
-- subjects that may get it, and restocks the access cache of
-- pkg/auth/cache/atomiclistrestockcache.go, a map from a subject to its namespaces. Events on watched
-- resources and a timer make requests, one of which a goroutine takes at a time to run `synch`. A
-- request to the API server of http_api_server.go is authenticated by authenticator.go, and the
-- lister of namespacelister_subject.go answers it from the access cache under the keys of the user
-- and the user's groups.
--
-- The files.
--   Base        numbers, text, equality, lists, maps, orders, sorting, slices, panics and int64
--   Kube        the types of the Kubernetes API, with the fields that the program uses
--   AccessCache pkg/auth/cache/atomiclistrestockcache.go: `restock`, `list`, `list_all`, and
--               `list_keys` for `List`
--   Subjects    `removeDuplicateSubjects`; Labels: `setVisibilityVirtualLabel` and
--               `withVirtualLabelsAndAnnotationsForAccess`; Synch: `synch`; Scheduler: `Synch`,
--               `Request` and `Start`, all of pkg/auth/cache/synchronized_access_cache.go
--   Options     pkg/auth/cache/synchronized_access_cache_opts.go and the resync period of
--               internal/resourcecache/access_cache.go
--   Metrics     pkg/auth/cache/metrics_accesscache.go and synchronized_access_cache_event.go there;
--               Metrics.Collect: what Prometheus is sent, and InitRegistry of metrics.go
--   Lister      namespacelister_subject.go and namespace_lister.go
--   UserInfo    acceptance/pkg/context/user_info.go, whose names the lister parses
--   Http        the parts of net/http that are used; Http.Authn: authenticator.go and
--               internal/http/middleware/http_auth_middleware.go; Http.Handlers:
--               http_api_handler_list.go and internal/http/middleware/http_log_middlewares.go;
--               Http.Server: http_api_server.go and AddMetricsMiddleware of
--               internal/http/middleware/metrics_http.go
--   System      the goroutines with their data: the resource cache changes, events arrive late, and a
--               run of `synch` goes round by round; System.Runs relates it to the function `synch`,
--               System.Granted is about what a run may store, System.Ending about its end,
--               System.CatchUp about the run after it, and System.Courses says which moves are of a
--               run or need no change from outside
--   Program     the start among these goroutines: access_cache_startup.go from its call of `Start`
--               on, and `run` of main.go behind it; Program.Serving, Program.Granted and
--               Program.Panics: its answers once it is up
--   Lifecycle   the end of the process: `main`, `run` and `Start` of http_api_server.go from where the
--               server listens, with signals, the metrics server, the resource cache and the
--               shutdown
--   Calls       `Synch` and `Request` as calls that run to their end, with their metrics
--   Service     the API server, the lister and `synch` together
--   Transform   internal/resourcecache/internal/transform/transformfuncs.go
--   CacheOptions  internal/resourcecache/cache_build.go: selectors and transformations by kind;
--               CacheOptions.Build: its scheme and its call of `cache.New`, and config.go there
--   Tls         loadTLSCert and the flags of main.go, and the TLS options of http_api_server.go
--   Logging     internal/log/log.go and internal/contextkey/context.go
--   Retriever   rbac_authorizer.go
--   Policies    from the objects of the cluster to the answers: the evaluator that
--               access_cache_startup.go makes, over a resource cache with the options of CacheOptions;
--               Policies.Cached: what such a cache holds, Policies.Trimmed and Policies.Evaluated: whom
--               the evaluator allows what then, Policies.Served: what the API server answers,
--               Policies.History: what is listed while the objects change
--   Startup     `run` of main.go, access_cache_startup.go, `NewAuthenticator` of authenticator.go,
--               and config.go, cache.go and cache_build.go of internal/resourcecache
--   Env         env.go, GetLogLevel of internal/log/log.go, the headers of authenticator.go, and
--               acceptance/pkg/rest/config.go
--   Descriptions  the metrics of internal/http/middleware/metrics_http.go and of
--               pkg/auth/cache/metrics_accesscache.go as Prometheus is told of them
--   Acceptance  acceptance/pkg/context/context.go; Acceptance.Hooks: hooks.go and env.go of
--               acceptance/pkg/suite; Acceptance.Steps: the steps there that create objects, and
--               Acceptance.Checks: those that look at an answer, in Checks.Service at the lister's
--               and in Checks.Polling at one after the other; Acceptance.Grants: what the steps grant,
--               Acceptance.Scenario: a step, the service and a check together
--   Clients     acceptance/pkg/rest/client.go
--   MetricsUtil pkg/metricsutil/metrics.go
--   Tests       runs on concrete inputs
--
-- How state corresponds. The pointer of the access cache is an optional map in a record. `synch` is a
-- function on the reader's store of namespaces and the cache: the resource cache hands out its own
-- objects, so a write to a map of labels goes to the store as well, unless the environment says that
-- the reader copies. The goroutines are a step relation over the channel of capacity 1, the flag
-- `synchronizing` and the place of each goroutine; a run of `synch` begins and ends in separate steps.
-- A panic is a value. The order in which a map is visited is any permutation. A
-- start of the program is a list of recorded calls. In System a label may be written to any stored
-- namespace in any round, which covers the writes of this run and of earlier ones; the fields
-- `pending` and `completed` are no variables of the program and only say what has happened.
--
-- Bounds and fuel. Every loop of the source runs over a list, a text or a number of rounds, and
-- needs no fuel. Only the printing of a number in decimal does, in Base.Decimal: the fuel is the
-- number itself, which is enough, since the value of the digits is the number again. The loops of
-- `Start`, which do not end by themselves, are steps of the relation. Durations are int64 in
-- nanoseconds and wrap around; counters are natural numbers.
--
-- Parameters. The RBAC evaluator, the reader, the context's errors, `json.Marshal`, the delegating
-- authenticator, promhttp, `time.ParseDuration`, `labels.Parse`, `labels.SelectorFromSet`, client-go,
-- `cache.New`, `tls.LoadX509KeyPair`, `wait.PollUntilContextTimeout`, the Prometheus registry and
-- `TransformStripManagedFields` are not in the repository. Some of them have a law, as their
-- documentation states it: an instrumented handler answers as the handler does, polling returns nil
-- exactly if its condition held once in time, and the stripping function clears the managed fields
-- alone. In Policies a selector made of one label selects the objects with that label and value; the
-- reader of the resource cache finds and lists, of each kind, the objects that the cache's options
-- select, transformed; and the evaluator without a super user allows the group `system:masters` and
-- the subjects of the bindings whose role has a rule that applies. Reading that fails is an empty
-- answer there.
--
-- Not modelled: what is logged, tracing of durations, sockets and the TLS handshake, the
-- registration of metrics with Prometheus and of steps with Cucumber, the parsing of flags, mocks.
-- Text is compared and lowered as ASCII. `http.ServeMux` is modelled for the three patterns in use
-- and clean paths, and `WriteHeader` with the codes that it refuses and those that it takes as
-- informational. A code of an answer is an integer of any size.
pub mod Base
pub mod Kube
pub mod AccessCache
pub mod Subjects
pub mod Labels
pub mod Synch
pub mod Scheduler
pub mod Lister
pub mod UserInfo
pub mod Http
pub mod Metrics
pub mod Service
pub mod Transform
pub mod Options
pub mod Retriever
pub mod Policies
pub mod Startup
pub mod System
pub mod Calls
pub mod CacheOptions
pub mod Acceptance
pub mod Env
pub mod Lifecycle
pub mod Program
pub mod MetricsUtil
pub mod Descriptions
pub mod Tests
pub mod Clients
pub mod Tls
pub mod Logging
