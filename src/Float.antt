-- ===== src/Float.antt =====
-- The `f64` arithmetic and the random draws of the jitter, as a parameter: antt has no floats. A draw
-- is named by its number.
use smspool_sdk.Prelude.{ℕ, Bool, Option}

pub record Floats : Type 1 where
  -- `f64`.
  pub F : Type 0
  -- `x == 0.0`.
  pub is_zero : F → Bool
  -- `x.is_finite()`.
  pub is_finite : F → Bool
  -- `(0.0..=1.0).contains(&x)`.
  pub in_unit : F → Bool
  -- The literal `0.2`.
  pub default_ratio : F
  -- `Duration::from_secs_f64(1.0 / f64::from(n))`, in nanoseconds.
  pub period : ℕ → ℕ
  -- `base.mul_f64((1.0 - ratio) + rand::random::<f64>() * (2.0 * ratio))` at the draw;
  -- `mul_f64` panics where the product leaves the range of a duration (`none`).
  pub scaled : (ratio : F) (draw base : ℕ) → Option ℕ
  -- `((nanos as f64) * factor).round().max(0.0) as u128`, the factor drawn from
  -- `(1.0 - ratio)..=(1.0 + ratio)`.
  pub jittered : (ratio : F) (draw nanos : ℕ) → ℕ
