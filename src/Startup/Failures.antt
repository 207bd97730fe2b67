-- ===== src/Startup/Failures.antt =====
-- What a start of the program does when something fails: `run` of main.go against the plain list of
-- its calls.
use namespace_lister.Base.{
  ◌≡◌, refl, sym, subst, ap, ◌∙◌, true, none, List, [], ◌∷◌, ◌++◌, map, ◌⊎◌, inl, inr,
  if◌then◌else◌, Bool-cases,
}
use namespace_lister.Startup.Calls.{
  Call, checked, unchecked, make, Makes, then_do_ext, Makes-append, one-Makes, if-Makes, note-Makes,
  checked-Makes, make-StopsAtFirstError, StopsAtFirstError,
}
use namespace_lister.Startup.{
  Kind, Action, build_authenticator, parse_label_selector, build_scheme, new_resource_cache,
  get_informer, add_event_handler, start_resource_cache, wait_for_cache_sync, register_metrics,
  start_access_cache, synch_access_cache, build_http_client, build_metrics_server,
  start_metrics_server, listen_and_serve, listen_and_serve_tls, start_server, as_given, not_synched,
  bad_selector, no_informer, Outside, Stage, ◌then_do◌, cached_objects, event_objects, Flags,
  perform, note, new_authenticator, new_config_from_env, get_informers, start_cache,
  build_and_start, build_and_register_access_cache_metrics, register_handlers,
  build_and_start_synchronized_access_cache, start_metrics, run,
}

abbrev informer_calls : List Kind → List Call
informer_calls = map (λ k. checked (no_informer k) (get_informer k))

abbrev handler_calls : List Kind → List Call
handler_calls [] = []
handler_calls (k ∷ kk) =
    checked as_given (get_informer k) ∷ checked as_given (add_event_handler k) ∷ handler_calls kk

abbrev cache_calls : List Call
cache_calls =
    checked as_given build_scheme
    ∷ checked as_given new_resource_cache
    ∷ (informer_calls cached_objects
        ++ unchecked start_resource_cache ∷ checked (λ m. not_synched) wait_for_cache_sync ∷ [])

abbrev access_calls : Flags → List Call
access_calls flags =
    (if flags.has_registry then checked as_given register_metrics ∷ [] else [])
    ++ (handler_calls event_objects
        ++ unchecked start_access_cache ∷ checked as_given synch_access_cache ∷ [])

abbrev metrics_calls : Flags → List Call
metrics_calls flags =
    if flags.enable_metrics
    then checked as_given build_http_client
      ∷ checked as_given build_metrics_server
      ∷ unchecked start_metrics_server
      ∷ []
    else []

abbrev server_calls : Flags → List Call
server_calls flags =
    if flags.enable_tls
    then checked as_given listen_and_serve_tls ∷ []
    else checked as_given listen_and_serve ∷ []

-- The calls of a start that nothing stops, in their order.
abbrev pub calls : Flags → List Call
calls flags =
    checked as_given build_authenticator
    ∷ checked bad_selector parse_label_selector
    ∷ (cache_calls ++ (access_calls flags ++ (metrics_calls flags ++ server_calls flags)))

module _ (out : Outside) where
  get_informers-Makes : (kk : List Kind) → Makes out (get_informers out kk) (informer_calls kk)
  unfolding Makes make get_informers
  get_informers-Makes [] t = refl
  get_informers-Makes (k ∷ kk) t = then_do_ext out (perform out _ _ t) _ _ (get_informers-Makes kk)

  register_handlers-Makes :
      (kk : List Kind) → Makes out (register_handlers out kk) (handler_calls kk)
  unfolding Makes make register_handlers
  register_handlers-Makes [] t = refl
  register_handlers-Makes (k ∷ kk) t =
      then_do_ext out (perform out _ _ t) _ _
        (λ t₁. then_do_ext out (perform out _ _ t₁) _ _ (register_handlers-Makes kk))

  start_cache-Makes : Makes out (start_cache out) (
      informer_calls cached_objects
      ++ unchecked start_resource_cache ∷ checked (λ m. not_synched) wait_for_cache_sync ∷ [])
  unfolding Makes start_cache
  start_cache-Makes =
      Makes-append out (get_informers out cached_objects)
        (λ t.
          note out start_resource_cache t
          then_do perform out (λ m. not_synched) wait_for_cache_sync)
        (informer_calls cached_objects)
        (unchecked start_resource_cache ∷ checked (λ m. not_synched) wait_for_cache_sync ∷ [])
        (get_informers-Makes cached_objects)
        (note-Makes out start_resource_cache _ _
          (one-Makes out (λ m. not_synched) wait_for_cache_sync))

  build_and_start-Makes : Makes out (build_and_start out) cache_calls
  unfolding Makes make build_and_start
  build_and_start-Makes t =
      then_do_ext out (perform out _ _ t) _ _
        (λ t₁. then_do_ext out (perform out _ _ t₁) _ _ start_cache-Makes)

  handlers-Makes :
      Makes out
        (λ t. register_handlers out event_objects t then_do λ t₁.
          note out start_access_cache t₁ then_do perform out as_given synch_access_cache)
        (handler_calls event_objects
          ++ unchecked start_access_cache ∷ checked as_given synch_access_cache ∷ [])
  handlers-Makes =
      Makes-append out (register_handlers out event_objects)
        (λ t. note out start_access_cache t then_do perform out as_given synch_access_cache)
        (handler_calls event_objects)
        (unchecked start_access_cache ∷ checked as_given synch_access_cache ∷ [])
        (register_handlers-Makes event_objects)
        (note-Makes out start_access_cache _ _ (one-Makes out as_given synch_access_cache))

  access-Makes :
      (flags : Flags)
      → Makes out (build_and_start_synchronized_access_cache out flags) (access_calls flags)
  unfolding Makes build_and_start_synchronized_access_cache build_and_register_access_cache_metrics
  access-Makes flags =
      Makes-append out
        (λ t. if flags.has_registry then perform out as_given register_metrics t else (t, none)) _
        (if flags.has_registry then checked as_given register_metrics ∷ [] else []) _
        (if-Makes out flags.has_registry _ _ (one-Makes out as_given register_metrics))
        handlers-Makes

  metrics-Makes : (flags : Flags) → Makes out (start_metrics out flags) (metrics_calls flags)
  unfolding Makes make start_metrics
  metrics-Makes flags = if-Makes out flags.enable_metrics _ _ (λ t. refl)

  server-Makes : (flags : Flags) → Makes out (start_server out flags) (server_calls flags)
  unfolding Makes start_server
  server-Makes flags t = elim (Bool-cases flags.enable_tls) [
    | inl on ↦ rw on (one-Makes out as_given listen_and_serve_tls t)
    | inr off ↦ rw off (one-Makes out as_given listen_and_serve t)
  ]

  new_authenticator_given :
      (flags : Flags) (t : List Action)
      → flags.has_client ≡ true ⊎ flags.has_config ≡ true
      → new_authenticator out flags t ≡ perform out as_given build_authenticator t
  unfolding new_authenticator
  new_authenticator_given flags t (inl h) = rw h
  new_authenticator_given flags t (inr h) = elim (Bool-cases flags.has_client) [
    | inl k ↦ rw k
    | inr k ↦ rw (k, h)
  ]

  -- The stages behind the resource cache, and those behind the authenticator.
  last_stages : Flags → Stage
  last_stages flags t = build_and_start_synchronized_access_cache out flags t then_do λ t₁.
      start_metrics out flags t₁ then_do start_server out flags

  abbrev last_calls : Flags → List Call
  last_calls flags = access_calls flags ++ (metrics_calls flags ++ server_calls flags)

  later_stages : Flags → Stage
  unfolding last_stages
  later_stages flags t = perform out bad_selector parse_label_selector t then_do λ t₁.
      build_and_start out t₁ then_do last_stages flags

  last_stages-Makes : (flags : Flags) → Makes out (last_stages flags) (last_calls flags)
  unfolding Makes last_stages
  last_stages-Makes flags =
      Makes-append out (build_and_start_synchronized_access_cache out flags)
        (λ t. start_metrics out flags t then_do start_server out flags) (access_calls flags)
        (metrics_calls flags ++ server_calls flags) (access-Makes flags)
        (Makes-append out (start_metrics out flags) (start_server out flags) (metrics_calls flags)
          (server_calls flags) (metrics-Makes flags) (server-Makes flags))

  later_stages-Makes :
      (flags : Flags)
      → Makes out
          (later_stages flags)
          (checked bad_selector parse_label_selector ∷ (cache_calls ++ last_calls flags))
  unfolding Makes later_stages
  later_stages-Makes flags =
      checked-Makes out bad_selector parse_label_selector
        (λ t. build_and_start out t then_do last_stages flags) (cache_calls ++ last_calls flags)
        (Makes-append out (build_and_start out) (last_stages flags) cache_calls (last_calls flags)
          build_and_start-Makes (last_stages-Makes flags))

  run-Makes :
      (flags : Flags)
      → flags.has_client ≡ true ⊎ flags.has_config ≡ true
      → Makes out (run out flags) (calls flags)
  unfolding Makes run new_config_from_env later_stages last_stages
  run-Makes flags given t =
      ap (λ p. p then_do later_stages flags) (new_authenticator_given flags t given)
      ∙ checked-Makes out as_given build_authenticator (later_stages flags)
          (checked bad_selector parse_label_selector ∷ (cache_calls ++ last_calls flags))
          (later_stages-Makes flags) t

  -- The start of the program, given a client or its configuration: it either makes all its calls in
  -- their order (the authenticator, the selector, the resource cache with its five informers, the
  -- handlers of events, the access cache and its first synchronisation, the metrics server if it is
  -- enabled, and the API server), none of which has an error, and ends without one; or it makes them
  -- up to one that has an error, none before it having one, and ends with that error.
  pub run-StopsAtFirstError :
      (flags : Flags) (t : List Action)
      → flags.has_client ≡ true ⊎ flags.has_config ≡ true
      → StopsAtFirstError out (calls flags) t (run out flags t)
  unfolding Makes
  run-StopsAtFirstError flags t given =
      subst (StopsAtFirstError out (calls flags) t) (sym (run-Makes flags given t))
        (make-StopsAtFirstError out (calls flags) t)
