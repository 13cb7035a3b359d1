-- ===== src/Client/Retry.antt =====
-- `RetryPolicy` (src/client.rs).
use smspool_sdk.Prelude.{ℕ, not, ◌||◌, Result, ◌>>◌, reject_if, ltb, ◌==◌}
use smspool_sdk.Duration.{from_secs, from_millis}
use smspool_sdk.Float.{Floats}
use smspool_sdk.Error.{Error, invalid_request}

pub record RetryPolicy (F : Type 0) : Type 0 where
  pub max_attempts : ℕ
  pub base_delay : ℕ
  pub max_delay : ℕ
  pub max_retry_after : ℕ
  pub jitter_ratio : F

module _ (R : Floats) where
  open R use {F, is_finite, in_unit, default_ratio}

  -- `RetryPolicy::default`.
  abbrev pub default_retry : RetryPolicy F
  default_retry = record {
    max_attempts = 3;
    base_delay = from_millis 100;
    max_delay = from_secs 2;
    max_retry_after = from_secs 30;
    jitter_ratio = default_ratio;
  }

  -- `RetryPolicy::new`.
  abbrev pub retry_policy : ℕ → RetryPolicy F
  retry_policy max_attempts =
      let base = default_retry in record base { max_attempts = max_attempts }

  -- `RetryPolicy::validate`.
  unfoldable pub validate_retry : {V : Type 0} → RetryPolicy F → Result (Unit {0}) (Error V)
  validate_retry p = do
    reject_if (p.max_attempts == 0)
        (invalid_request "retry_policy.max_attempts" "must be greater than zero")
    reject_if (not (is_finite p.jitter_ratio) || not (in_unit p.jitter_ratio))
        (invalid_request "retry_policy.jitter_ratio" "must be finite and between zero and one")
    reject_if (ltb p.max_delay p.base_delay)
        (invalid_request "retry_policy.max_delay" "must be at least the base delay")
