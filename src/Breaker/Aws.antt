-- ===== src/Breaker/Aws.antt =====
-- The circuit breaker round AWS calls (pkg/aws/retry/circuit_breaker.go).
pub mod Opening
pub mod Recovery
use aws_multi_eni_controller.Prelude.{
  ℕ, suc, ◌+◌, Bool, true, false, List, [], ◌∷◌, Option, none, some, if◌then◌else◌, ltb, leb,
}

pub data State : Type 0 where
  closed open_state half_open : State

pub record Config : Type 0 where
  pub failure_threshold : ℕ
  pub success_threshold : ℕ
  pub timeout : ℕ
  pub max_concurrent_requests : ℕ

abbrev pub default_config : Config
default_config = record {
  failure_threshold = 5;
  success_threshold = 3;
  timeout = 30_000_000_000;
  max_concurrent_requests = 1;
}

pub record CircuitBreaker : Type 0 where
  pub config : Config
  pub state : State
  pub failure_count : ℕ
  pub success_count : ℕ
  pub last_failure_time : ℕ
  pub request_count : ℕ

abbrev config_or_default : Option Config → Config
config_or_default none = default_config
config_or_default (some c) = c

pub new_circuit_breaker : Option Config → CircuitBreaker
new_circuit_breaker c = record {
  config = config_or_default c;
  state = closed;
  failure_count = 0;
  success_count = 0;
  last_failure_time = 0;
  request_count = 0;
}

-- `time.Since(cb.lastFailureTime) > cb.config.Timeout`
abbrev pub has_timed_out : ℕ → CircuitBreaker → Bool
has_timed_out now cb = ltb (cb.last_failure_time + cb.config.timeout) now

allow_in : State → ℕ → CircuitBreaker → Bool × CircuitBreaker
allow_in closed now cb = (true, cb)
allow_in open_state now cb =
    if has_timed_out now cb
    then (true, record cb { state = half_open; request_count = 0; success_count = 0 })
    else (false, cb)
allow_in half_open now cb =
    if ltb cb.request_count cb.config.max_concurrent_requests
    then (true, record cb { request_count = cb.request_count + 1 })
    else (false, cb)

pub allow_request : ℕ → CircuitBreaker → Bool × CircuitBreaker
unfolding allow_in
allow_request now cb = allow_in cb.state now cb

on_success_in : State → CircuitBreaker → CircuitBreaker
on_success_in half_open cb =
    if leb cb.config.success_threshold (cb.success_count + 1)
    then record cb { state = closed; success_count = 0; request_count = 0 }
    else record cb { success_count = cb.success_count + 1 }
on_success_in _ cb = cb

on_success : CircuitBreaker → CircuitBreaker
unfolding on_success_in
on_success cb = on_success_in cb.state (record cb { failure_count = 0 })

on_failure_in : State → CircuitBreaker → CircuitBreaker
on_failure_in closed cb =
    if leb cb.config.failure_threshold cb.failure_count
    then record cb { state = open_state }
    else cb
on_failure_in half_open cb = record cb { state = open_state; success_count = 0; request_count = 0 }
on_failure_in open_state cb = cb

on_failure : ℕ → CircuitBreaker → CircuitBreaker
unfolding on_failure_in
on_failure now cb =
    on_failure_in cb.state
      (record cb { failure_count = cb.failure_count + 1; last_failure_time = now })

pub record_result : ℕ → Bool → CircuitBreaker → CircuitBreaker
unfolding on_success on_failure
record_result now success cb = if success then on_success cb else on_failure now cb

-- One call of `Execute`: when it asks, when its function returns, and whether with success.
pub record Request : Type 0 where
  pub asked_at : ℕ
  pub answered_at : ℕ
  pub success : Bool

-- The answer says whether the function was run.
pub execute : Request → CircuitBreaker → Bool × CircuitBreaker
execute r cb =
    let a = allow_request r.asked_at cb in
    if a.0 then (true, record_result r.answered_at r.success a.1) else (false, a.1)

-- Calls one after the other.
pub execute_all : List Request → CircuitBreaker → CircuitBreaker
execute_all [] cb = cb
execute_all (r ∷ rs) cb = execute_all rs (execute r cb).1

pub reset : CircuitBreaker → CircuitBreaker
reset cb = record cb { state = closed; failure_count = 0; success_count = 0; request_count = 0 }

allowed_in : State → ℕ → CircuitBreaker → Bool
allowed_in closed now cb = true
allowed_in open_state now cb = has_timed_out now cb
allowed_in half_open now cb = ltb cb.request_count cb.config.max_concurrent_requests

pub is_operation_allowed : ℕ → CircuitBreaker → Bool
unfolding allowed_in
is_operation_allowed now cb = allowed_in cb.state now cb
