-- ===== src/Transport/Admission/Laws.antt =====
-- What the admission of an attempt does (src/transport.rs): it sends nothing, fails only in its own
-- ways, and keeps its deadlines.
use smspool_sdk.Prelude.{ℕ, zero, suc, ◌≡◌, refl, ◌⊎◌, Bool, false, Option, none, some, arith}
use smspool_sdk.Endpoint.{Endpoint}
use smspool_sdk.Error.{
  Error, api, rate_limited, transport, timeout, response_too_large, decode, invalid_request,
  unsupported_operation, outcome_unknown, concurrency_permit, qps_admission, other,
}
use smspool_sdk.Client.{Client}
use smspool_sdk.Transport.Io.{Io, Op, ◌>>=◌, return}
use smspool_sdk.Transport.Rules.{
  SendsAtMost, Fails, Sends, bind-SendsAtMost, bind-Fails, bind-Sends,
}
use smspool_sdk.Transport.Failure.{AttemptFailure}
use smspool_sdk.Transport.Admission.{
  Round, take_permit, instant_after, admit_round, admit_rounds, admit, acquire_admission,
}

-- The errors of a request that was not handed to the HTTP client.
abbrev pub IsUndelivered : {V : Type 0} → Endpoint → Error V → Type 0
IsUndelivered e (timeout n p) = (n ≡ e.name) × ((p ≡ concurrency_permit) ⊎ (p ≡ qps_admission))
IsUndelivered e (transport n k) = (n ≡ e.name) × (k ≡ other)
IsUndelivered e (invalid_request field reason) = Unit
IsUndelivered e (api a) = ⊥
IsUndelivered e (rate_limited n d) = ⊥
IsUndelivered e (response_too_large n l) = ⊥
IsUndelivered e (decode n p) = ⊥
IsUndelivered e (unsupported_operation n r) = ⊥
IsUndelivered e (outcome_unknown u) = ⊥

-- A final failure, with no request sent.
pub record IsUnsent {V : Type 0} (e : Endpoint) (n : ℕ) (x : AttemptFailure V) : Type 0 where
  pub nothing_sent : n ≡ 0
  pub undelivered : IsUndelivered e x.error
  pub final : x.retryable ≡ false

module _ {V : Type 0} (e : Endpoint) where
  abbrev pub IsQuiet : {A : Type 0} → Io (AttemptFailure V) A → Type 0
  IsQuiet m = Fails (IsUnsent e) m × Sends 0 m

  pub bind-IsQuiet :
      {A B : Type 0} (m : Io (AttemptFailure V) A) (f : A → Io (AttemptFailure V) B)
      → IsQuiet m
      → ((a : A) → IsQuiet (f a))
      → IsQuiet (m >>= f)
  bind-IsQuiet m f h k = (
    bind-Fails m f (IsUnsent e) 0 h.0 h.1 (λ a now x q. ground (arith, (k a).0 now x q)),
    bind-Sends m f 0 0 h.1 (λ a. (k a).1),
  )

  take_permit-IsQuiet : (limit : ℕ) (permit : Op Bool) → IsQuiet (take_permit e limit permit)
  unfolding take_permit
  take_permit-IsQuiet limit permit = (λ now x h. ground arith, λ now a h. ground arith)

  instant_after-IsQuiet : (last wait : ℕ) → IsQuiet (instant_after {V = V} last wait)
  unfolding instant_after
  instant_after-IsQuiet last wait = (λ now x h. ground arith, λ now a h. ground arith)

  admit_round-IsQuiet :
      (last interval deadline limit : ℕ) (r : Round)
      → IsQuiet (admit_round e last interval deadline limit r)
  unfolding admit_round
  admit_round-IsQuiet last interval deadline limit r =
      (λ now x h. ground arith, λ now a h. ground arith)

  admit_rounds-IsQuiet :
      (last interval deadline limit : ℕ) (rounds : ℕ → Round) (fuel k : ℕ)
      → IsQuiet (admit_rounds e last interval deadline limit rounds fuel k)
  unfolding admit_rounds
  admit_rounds-IsQuiet last interval deadline limit rounds zero k = (λ now x h. cc, λ now a h. cc)
  admit_rounds-IsQuiet last interval deadline limit rounds (suc fuel) k =
      bind-IsQuiet (admit_round e last interval deadline limit (rounds k)) _
        (admit_round-IsQuiet last interval deadline limit (rounds k))
        (elim [
          | none ↦ admit_rounds-IsQuiet last interval deadline limit rounds fuel (suc k)
          | some s ↦ (λ now x h. cc, λ now a h. refl)
        ])

  admit-IsQuiet :
      (last qps_wait limit fuel : ℕ) (permit : Op Bool) (rounds : ℕ → Round) (interval : Option ℕ)
      → IsQuiet (admit e last qps_wait limit fuel permit rounds interval)
  unfolding admit
  admit-IsQuiet last qps_wait limit fuel permit rounds none =
      bind-IsQuiet (take_permit e limit permit) _ (take_permit-IsQuiet limit permit)
        (λ a. (λ now x h. cc, λ now a h. refl))
  admit-IsQuiet last qps_wait limit fuel permit rounds (some interval) =
      bind-IsQuiet (instant_after last qps_wait)
        (λ deadline. admit_rounds e last interval deadline limit rounds fuel 0)
        (instant_after-IsQuiet last qps_wait)
        (λ deadline. admit_rounds-IsQuiet last interval deadline limit rounds fuel 0)

  -- The admission sends nothing, and each of its failures is final and undelivered.
  pub acquire_admission-IsQuiet :
      {F U : Type 0} (client : Client F U) (last fuel : ℕ) (permit : Op Bool) (rounds : ℕ → Round)
      → IsQuiet (acquire_admission client e last fuel permit rounds)
  unfolding acquire_admission
  acquire_admission-IsQuiet client last fuel permit rounds =
      admit-IsQuiet last client.qps_wait_timeout client.concurrency_wait_timeout fuel permit rounds
        client.qps_interval

module _ (V : Type 0) (e : Endpoint) where
  take_permit-SendsAtMost :
      (limit : ℕ) (permit : Op Bool) → SendsAtMost 0 (take_permit {V = V} e limit permit)
  unfolding take_permit
  take_permit-SendsAtMost limit permit now = ground arith

  instant_after-SendsAtMost : (last wait : ℕ) → SendsAtMost 0 (instant_after {V = V} last wait)
  unfolding instant_after
  instant_after-SendsAtMost last wait now = ground arith

  admit_round-SendsAtMost :
      (last interval deadline limit : ℕ) (r : Round)
      → SendsAtMost 0 (admit_round {V = V} e last interval deadline limit r)
  unfolding admit_round
  admit_round-SendsAtMost last interval deadline limit r now = ground arith

  admit_rounds-SendsAtMost :
      (last interval deadline limit : ℕ) (rounds : ℕ → Round) (fuel k : ℕ)
      → SendsAtMost 0 (admit_rounds {V = V} e last interval deadline limit rounds fuel k)
  unfolding admit_rounds
  admit_rounds-SendsAtMost last interval deadline limit rounds zero k = λ now. omega arith
  admit_rounds-SendsAtMost last interval deadline limit rounds (suc fuel) k =
      bind-SendsAtMost (admit_round e last interval deadline limit (rounds k)) _ 0 0
        (admit_round-SendsAtMost last interval deadline limit (rounds k))
        (elim [
          | none ↦ admit_rounds-SendsAtMost last interval deadline limit rounds fuel (suc k)
          | some s ↦ λ now. omega arith
        ])

  admit-SendsAtMost :
      (last qps_wait limit fuel : ℕ) (permit : Op Bool) (rounds : ℕ → Round) (interval : Option ℕ)
      → SendsAtMost 0 (admit {V = V} e last qps_wait limit fuel permit rounds interval)
  unfolding admit
  admit-SendsAtMost last qps_wait limit fuel permit rounds none =
      bind-SendsAtMost (take_permit e limit permit) (λ _. return none) 0 0
        (take_permit-SendsAtMost limit permit) (λ a now. omega arith)
  admit-SendsAtMost last qps_wait limit fuel permit rounds (some interval) =
      bind-SendsAtMost (instant_after last qps_wait)
        (λ deadline. admit_rounds e last interval deadline limit rounds fuel 0) 0 0
        (instant_after-SendsAtMost last qps_wait)
        (λ deadline. admit_rounds-SendsAtMost last interval deadline limit rounds fuel 0)

  pub acquire_admission-SendsAtMost :
      {F U : Type 0} (client : Client F U) (last fuel : ℕ) (permit : Op Bool) (rounds : ℕ → Round)
      → SendsAtMost 0 (acquire_admission {V = V} client e last fuel permit rounds)
  unfolding acquire_admission
  acquire_admission-SendsAtMost client last fuel permit rounds =
      admit-SendsAtMost last client.qps_wait_timeout client.concurrency_wait_timeout fuel permit
        rounds client.qps_interval
