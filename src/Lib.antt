-- ===== src/Lib.antt =====
-- A model of the SMSPool SDK, a Rust client of the SMSPool HTTP API, and what holds of it.
--
-- The program. A `Client` (src/client.rs) is built once from a `ClientBuilder`, which checks its limits
-- and confines the base URL. The typed API (src/api) encodes the fields of an operation as a
-- `WireRequest` and hands it, with the operation's descriptor (src/endpoint.rs), to
-- `transport::execute` (src/transport.rs). That validates the request, and runs attempts: each builds
-- the HTTP request, waits for a start slot and a concurrency permit, sends, and reads a bounded body.
-- A failed attempt of a read may be retried after a delay; a mutation is sent once, and where the code
-- cannot know whether it took effect, the error is `OutcomeUnknown`.
--
-- The files.
--   Endpoint.antt and Endpoint/: the types of src/endpoint.rs, and its 60 descriptors by group.
--   Error.antt: the errors of src/error.rs.
--   Client.antt and Client/: `RetryPolicy`, `ClientBuilder`, `build` and `max_in_flight_duration` of
--     src/client.rs; Checks and Laws hold the proofs.
--   Transport.antt and Transport/: src/transport.rs, one file per function or group of functions.
--     Io is the form of asynchronous code; Rules, Rescue and Timed reason about it.
--   Types.antt and Types/: the identifiers, sensitive strings and statuses of src/types.rs, and the
--     lenient readers of src/de.rs.
--   Api.antt and Api/: the typed API of src/api, one file for each group of operations. An operation is
--     the `ApiCall` that it hands to `Client::execute_endpoint` (Api/Call.antt); Api/Sms/Check.antt
--     decodes the snapshots of an order; Api/Calls.antt lists all operations.
--   Poll.antt and Poll/: the workflows of src/poll.rs. Options holds the builders, Delay the delays and the
--     three biased `select!`s, Cancel `cancel_with_reconciliation`, Wait `wait_for_sms` and
--     `wait_for_code_with`, Watcher the state of `ActiveOrdersWatcher` and its snapshots, Watch its
--     `next`; the children of each hold the proofs.
--   BTreeMap.antt and BTreeMap/: `BTreeMap` of the standard library as a sorted association list.
--   Examples.antt and Examples/: concrete runs.
--   Prelude.antt, Duration.antt: shared helpers, and `std::time::Duration` in nanoseconds.
--   Json.antt, Float.antt, Url.antt: the crates serde_json and url and the f64 arithmetic, as records
--     of operations that the definitions take as parameters.
--
-- Asynchronous code. A piece of code is a function from the reading of the monotonic clock to an exit,
-- the clock at its end, and the number of requests that it handed to the HTTP client. What it awaits is
-- an operation with a duration and an answer, so that a timeout is a comparison. `World` holds all the
-- answers of one attempt: the locks and the semaphore, the server, the wall clock and the random draw.
--
-- Panics. A run can end in a panic, and so can a computation (`none` of an option of a result): the
-- `expect` of `build_request`, the `unreachable!` of the retry loop, `Instant + Duration` past the last
-- instant of the platform (`World.last_instant`), `Duration::mul_f64` out of range (`Floats.scaled`),
-- `Semaphore::new` above its limit (`build`), and the difference of two `Decimal`s (`observed_balance`).
-- Sums that the code or tokio saturates or checks do not panic.
--
-- Fuel. The loops of `acquire_admission` and of the cancellation workflow are cut off by fuel that has
-- nothing to do with their own guards. In the first, with a schedule that never moves back, one round
-- for each nanosecond of `qps_wait_timeout` and two more are enough, since every round but the first
-- ends later than it began; in the second, `max_cancel_attempts` rounds are enough. The retry loop is a
-- `for` over the attempts, structural recursion on those left. The loops of `wait_for_sms` and of the
-- watcher have a round for each nanosecond up to the deadline and one more, which is enough where each
-- read of the provider takes some time.
--
-- Not modelled: the response structs that serde derives and their derived readers, which are parameters;
-- `DecodedJson`; tracing, `Debug` and `Display` output and the redaction; the one-line setters and
-- getters; the connections and TLS of reqwest; and the waiting of several tasks on one semaphore, which
-- enters only as the answers of the locks. The examples, tests and scripts around the SDK are no part
-- of it.
pub mod Prelude
pub mod Duration
pub mod Endpoint
pub mod Json
pub mod Error
pub mod Float
pub mod Url
pub mod Client
pub mod Transport
pub mod BTreeMap
pub mod Types
pub mod Api
pub mod Poll
pub mod Examples
