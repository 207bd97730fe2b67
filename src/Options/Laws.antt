-- ===== src/Options/Laws.antt =====
-- The durations that the access cache runs with.
use namespace_lister.Base.{ℕ, zero, suc, ◌≡◌, ◌⊎◌, refl, String, Option, arith, ◌<◌, ◌^◌}
use namespace_lister.Base.Int.{ℤ, pos, ◌-ℤ◌, ◌≤ℤ◌, wrap_int64}
use namespace_lister.Options.{
  CacheSynchronizerOptions, Settings, minute, default_resync_period, apply, or_duration,
  max_duration, get_valid_resync_period_from_env_or_zero,
}

-- On the difference that `Apply` makes of a period that is not negative nothing wraps around.
wrap_minute : (n : ℕ) → n < 2 ^ 63 → wrap_int64 (pos n -ℤ minute) ≡ pos n -ℤ minute
unfolding wrap_int64 ◌-ℤ◌
wrap_minute n h = ground arith

max_duration_lem :
    (a b : ℤ)
    → (a ≤ℤ max_duration a b)
      × (b ≤ℤ max_duration a b)
      × ((max_duration a b ≡ a) ⊎ (max_duration a b ≡ b))
unfolding max_duration
max_duration_lem a b = ground arith

period_fits :
    (n : ℕ)
    → n < 2 ^ 63
    → (m : ℕ) × (or_duration (pos n) default_resync_period ≡ pos m) × (m < 2 ^ 63)
unfolding or_duration
period_fits zero h = (600000000000, refl, omega arith)
period_fits (suc n) h = (suc n, refl, h)

module _ {Logger ErrorHandler Metrics : Type 0} (default_logger : Logger)
    (default_sync_error_handler : ErrorHandler) (no_op_metrics : Metrics)
    (opts : CacheSynchronizerOptions Logger ErrorHandler Metrics) where
  abbrev applied : Settings Logger ErrorHandler Metrics
  applied = apply default_logger default_sync_error_handler no_op_metrics opts

  -- With the resync period that the environment gives, whatever it holds and however durations are
  -- parsed, the period that the cache runs with is positive, so that the timer of `Start` waits.
  pub apply-IsPositive :
      (parse_duration : String → Option ℤ) (rps : Option String)
      → opts.resync_period ≡ get_valid_resync_period_from_env_or_zero parse_duration rps
      → pos 1 ≤ℤ applied.resync_period
  unfolding apply get_valid_resync_period_from_env_or_zero or_duration
  apply-IsPositive parse_duration rps e = ground arith

  -- A timeout that is not given is set from the period: for a period of int64 that is not negative it
  -- is at least a minute, and at least the period that the cache runs with less a minute, and it is one
  -- of the two.
  apply_timeout :
      (n : ℕ)
      → opts.resync_period ≡ pos n
      → n < 2 ^ 63
      → opts.synch_timeout ≡ pos 0
      → (minute ≤ℤ applied.synch_timeout)
        × ((applied.resync_period -ℤ minute) ≤ℤ applied.synch_timeout)
        × ((applied.synch_timeout ≡ minute)
            ⊎ (applied.synch_timeout ≡ applied.resync_period -ℤ minute))
  unfolding apply or_duration
  apply_timeout n e small unset =
      let (m, period, fits) = period_fits n small in
      rw (e, unset, period, wrap_minute m fits, or_duration)
        (max_duration_lem minute (pos m -ℤ minute))
