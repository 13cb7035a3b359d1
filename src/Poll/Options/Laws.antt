-- ===== src/Poll/Options/Laws.antt =====
-- The polling options that the builders can make (src/poll.rs).
use smspool_sdk.Prelude.{
  ℕ, ◌≤◌, ◌<◌, ◌≡◌, true, not, ◌||◌, Option, Result, ok, arith, ltb, reject_if-eq-ok, subst,
}
use smspool_sdk.Duration.{is_zero}
use smspool_sdk.Float.{Floats}
use smspool_sdk.Poll.Delay.{PollOptions}
use smspool_sdk.Poll.Options.{poll_options, with_intervals, with_jitter_ratio}

ok_inj : {A E : Type 0} (a b : A) → Path (Result A E) (ok a) (ok b) → a ≡ b
ok_inj a b h = cc

module _ (R : Floats) where
  open R use {F}

  -- The options that a caller can come by.
  pub data IsBuilt : PollOptions F → Type 0 where
    with_defaults :
        (deadline : ℕ) (cancelled_at : Option ℕ) → IsBuilt (poll_options R deadline cancelled_at)
    paced :
        {options after : PollOptions F} (base_interval max_interval : ℕ)
        → IsBuilt options
        → with_intervals R options base_interval max_interval ≡ ok after
        → IsBuilt after
    jittered :
        {options after : PollOptions F} (jitter_ratio : F)
        → IsBuilt options
        → with_jitter_ratio R options jitter_ratio ≡ ok after
        → IsBuilt after

  pub record IsSound (options : PollOptions F) : Type 0 where
    pub positive : 0 < options.base_interval
    pub ordered : options.base_interval ≤ options.max_interval
    pub unit : R.in_unit options.jitter_ratio ≡ true
    pub finite : R.is_finite options.jitter_ratio ≡ true

  -- `0.2` is a ratio.
  abbrev pub DefaultIsRatio : Type 0
  DefaultIsRatio = (R.in_unit R.default_ratio ≡ true) × (R.is_finite R.default_ratio ≡ true)

  with_intervals-IsSound :
      (options after : PollOptions F) (base_interval max_interval : ℕ)
      → IsSound options
      → with_intervals R options base_interval max_interval ≡ ok after
      → IsSound after
  unfolding with_intervals
  with_intervals-IsSound options after base_interval max_interval h q =
      let new = record options { base_interval = base_interval; max_interval = max_interval } in
      let first = reject_if-eq-ok (is_zero base_interval) _ _ q in
      let second = reject_if-eq-ok (ltb max_interval base_interval) _ (ok new) first.1 in
      subst IsSound (ok_inj new after second.1) (record {
        positive = ground (arith, first.0);
        ordered = ground (arith, second.0);
        unit = h.unit;
        finite = h.finite;
      })

  with_jitter_ratio-IsSound :
      (options after : PollOptions F) (jitter_ratio : F)
      → IsSound options
      → with_jitter_ratio R options jitter_ratio ≡ ok after
      → IsSound after
  unfolding with_jitter_ratio
  with_jitter_ratio-IsSound options after jitter_ratio h q =
      let new = record options { jitter_ratio = jitter_ratio } in
      let test = not (R.is_finite jitter_ratio) || not (R.in_unit jitter_ratio) in
      let passed = reject_if-eq-ok test _ (ok new) q in
      subst IsSound (ok_inj new after passed.1) (record {
        positive = h.positive;
        ordered = h.ordered;
        unit = ground (arith, passed.0);
        finite = ground (arith, passed.0);
      })

-- However a caller combines the builders, the options have a positive base interval within the maximum
-- one and a finite jitter ratio between zero and one, as the literal default has.
pub built-IsSound :
    (R : Floats) (options : PollOptions (R.F))
    → DefaultIsRatio R
    → IsBuilt R options
    → IsSound R options
unfolding poll_options
built-IsSound R options ratio (with_defaults deadline cancelled_at) = record {
  positive = omega arith;
  ordered = omega arith;
  unit = ratio.0;
  finite = ratio.1;
}
built-IsSound R options ratio (paced {options = before} base_interval max_interval h q) =
    with_intervals-IsSound R before options base_interval max_interval
      (built-IsSound R before ratio h) q
built-IsSound R options ratio (jittered {options = before} jitter_ratio h q) =
    with_jitter_ratio-IsSound R before options jitter_ratio (built-IsSound R before ratio h) q
