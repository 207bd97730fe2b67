-- ===== src/Options.antt =====
-- The options of the access cache: pkg/auth/cache/synchronized_access_cache_opts.go, and the resync
-- period from the environment, internal/resourcecache/access_cache.go. Durations are nanoseconds.
pub mod Laws
use namespace_lister.Base.{ℕ, zero, suc, String, Option, none, some, if◌then◌else◌}
use namespace_lister.Base.Int.{ℤ, pos, negsuc, ◌-ℤ◌, ltb_ℤ, wrap_int64}
use namespace_lister.Synch.{Error, synch_already_running, other}

-- The levels of log/slog that the default error handler uses.
pub data Level : Type 0 where
  level_debug level_error : Level

-- `CacheSynchronizerOptions`; a pointer, a function or an interface that is nil is `none`.
pub record CacheSynchronizerOptions (Logger ErrorHandler Metrics : Type 0) : Type 0 where
  pub logger : Option Logger
  pub resync_period : ℤ
  pub synch_timeout : ℤ
  pub sync_error_handler : Option ErrorHandler
  pub metrics : Option Metrics

-- The fields of `SynchronizedAccessCache` that the options set.
pub record Settings (Logger ErrorHandler Metrics : Type 0) : Type 0 where
  pub logger : Logger
  pub resync_period : ℤ
  pub synch_timeout : ℤ
  pub sync_error_handler : ErrorHandler
  pub metrics : Metrics

-- `time.Minute`
abbrev pub minute : ℤ
minute = pos 60000000000

-- The two durations of `defaultCacheSynchronizerOptions`.
abbrev pub default_resync_period : ℤ
default_resync_period = pos 600000000000

abbrev pub default_synch_timeout : ℤ
default_synch_timeout = minute

-- the level that the default `SyncErrorHandler` logs an error with
unfoldable pub default_level : Error → Level
default_level synch_already_running = level_debug
default_level (other m) = level_error

-- `cmp.Or` of two durations
unfoldable pub or_duration : ℤ → ℤ → ℤ
or_duration (pos zero) d = d
or_duration (pos (suc n)) d = pos (suc n)
or_duration (negsuc n) d = negsuc n

-- `cmp.Or` of two values of a type where nil is the zero value
unfoldable pub or_default : {A : Type 0} → Option A → A → A
or_default none d = d
or_default (some a) d = a

-- `max`
unfoldable pub max_duration : ℤ → ℤ → ℤ
max_duration a b = if ltb_ℤ a b then b else a

module _ {Logger ErrorHandler Metrics : Type 0} (default_logger : Logger)
    (default_sync_error_handler : ErrorHandler) (no_op_metrics : Metrics) where
  -- `Apply`: the differences of int64 wrap around.
  unfoldable pub apply :
      CacheSynchronizerOptions Logger ErrorHandler Metrics → Settings Logger ErrorHandler Metrics
  unfolding or_duration or_default max_duration
  apply opts =
      let period = or_duration opts.resync_period default_resync_period in
      record {
        resync_period = period;
        synch_timeout =
            or_duration opts.synch_timeout
              (max_duration default_synch_timeout (wrap_int64 (period -ℤ minute)));
        sync_error_handler = or_default opts.sync_error_handler default_sync_error_handler;
        logger = or_default opts.logger default_logger;
        metrics = or_default opts.metrics no_op_metrics;
      }

-- `GetValidResyncPeriodFromEnvOrZero`: `rps` is the variable's value, if it is set, and
-- `parse_duration` is `time.ParseDuration`, with `none` for an error.
unfoldable pub get_valid_resync_period_from_env_or_zero : (String → Option ℤ) → Option String → ℤ
get_valid_resync_period_from_env_or_zero parse_duration none = pos 0
get_valid_resync_period_from_env_or_zero parse_duration (some rps) = elim (parse_duration rps) [
  | none ↦ pos 0
  | some rp ↦ if ltb_ℤ rp (pos 0) then pos 0 else rp
]
